-- ===== src/Stream/WindowKey.antt =====
-- src/stream_conventions.rs: the key of a cached window.
use weeb.Prelude.{ℕ, ◌≤◌, false, [], ◌∷◌, ◌++◌, All, ◌≡◌, refl, sym, arith, u64_max}
use mathlib.Core.Path.{subst}
use weeb.Prelude.Text.{Text}
use weeb.Prelude.Decimal.{decimal, IsDigits, decimal-IsDigits, decimal-injective, is_ascii_digit}

-- `format!("{identity}|{size}|{start}-{end}")`.
unfoldable pub window_key : Text → ℕ → ℕ → ℕ → Text
window_key identity size start end =
    ((identity ++ (124 ∷ decimal size)) ++ (124 ∷ decimal start)) ++ (45 ∷ decimal end)

not_digits :
    (sep : ℕ) (xs ys : Text) → is_ascii_digit sep ≡ false → IsDigits (xs ++ (sep ∷ ys)) → 1 ≤ 0
not_digits sep [] ys h d = absurd (ground (arith, d.0))
not_digits sep (x ∷ xs) ys h d = not_digits sep xs ys h d.1

last_split :
    (sep : ℕ) (xs ds ys es : Text)
    → is_ascii_digit sep ≡ false
    → IsDigits ds
    → IsDigits es
    → xs ++ (sep ∷ ds) ≡ ys ++ (sep ∷ es)
    → (xs ≡ ys) × (ds ≡ es)
last_split sep [] ds [] es h hd he e = (refl, cc)
last_split sep [] ds (y ∷ ys) es h hd he e =
    let tail : ds ≡ ys ++ (sep ∷ es) = cc in
    absurd (omega (arith, not_digits sep ys es h (subst IsDigits tail hd)))
last_split sep (x ∷ xs) ds [] es h hd he e =
    let tail : xs ++ (sep ∷ ds) ≡ es = cc in
    absurd (omega (arith, not_digits sep xs ds h (subst IsDigits (sym tail) he)))
last_split sep (x ∷ xs) ds (y ∷ ys) es h hd he e =
    let rest : xs ++ (sep ∷ ds) ≡ ys ++ (sep ∷ es) = cc in
    let (same, digits) = last_split sep xs ds ys es h hd he rest in
    let head : x ≡ y = cc in (cc, digits)

-- Windows with the same key are the same part of the same resource, whatever characters the
-- identity has.
pub window_key-injective :
    (i j : Text) (size start end size2 start2 end2 : ℕ)
    → All (λ n. n ≤ u64_max) (size ∷ (start ∷ (end ∷ (size2 ∷ (start2 ∷ (end2 ∷ []))))))
    → window_key i size start end ≡ window_key j size2 start2 end2
    → (i ≡ j) × (size ≡ size2) × (start ≡ start2) × (end ≡ end2)
unfolding window_key is_ascii_digit
window_key-injective i j size start end size2 start2 end2 (a, (b, (c, (d, (e, (f, u)))))) same =
    let (front, ends) =
      last_split 45 _ (decimal end) _ (decimal end2) refl (decimal-IsDigits end)
        (decimal-IsDigits end2) same in
    let (front2, starts) =
      last_split 124 _ (decimal start) _ (decimal start2) refl (decimal-IsDigits start)
        (decimal-IsDigits start2) front in
    let (ids, sizes) =
      last_split 124 i (decimal size) j (decimal size2) refl (decimal-IsDigits size)
        (decimal-IsDigits size2) front2 in
    (
      ids,
      decimal-injective size size2 a d sizes,
      decimal-injective start start2 b e starts,
      decimal-injective end end2 c f ends,
    )

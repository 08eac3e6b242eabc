-- ===== src/Chain/Tests.antt =====
-- src/on_chain_conventions.rs: words at concrete inputs.
use weeb.Prelude.{some, [], ◌∷◌, ◌≡◌, arith}
use weeb.Chain.{abi_bytes}
use weeb.Chain.Words.{encoded_bytes, abi_bytes-encoded_bytes}

abi_bytes-encoded_bytes_example :
    abi_bytes (encoded_bytes (5 ∷ (6 ∷ [])) (0 ∷ (0 ∷ []))) ≡ some (5 ∷ (6 ∷ []))
abi_bytes-encoded_bytes_example =
    abi_bytes-encoded_bytes (5 ∷ (6 ∷ [])) (0 ∷ (0 ∷ [])) (omega arith)

-- ===== src/Feed/Tests.antt =====
-- src/feed.rs: searches at concrete feeds.
use weeb.Prelude.{◌+◌, some, reverse, ◌≡◌, refl, arith}
use mathlib.Core.List.Permᴰ
use weeb.Feed.{seek_sequence_feed_frontier, ok, probe_index}
use weeb.Feed.Seek.{entries, last_entry, seek_sequence_feed_frontier-last}

-- The lowest level of each wave completes first.
seek_sequence_feed_frontier-last_example :
    seek_sequence_feed_frontier (entries (λ i. i + 100) 5) (λ fuel levels. reverse levels) 5
    ≡ some (last_entry (λ i. i + 100) 5)
seek_sequence_feed_frontier-last_example =
    seek_sequence_feed_frontier-last (λ i. i + 100) 5 (λ fuel levels. reverse levels)
      (λ fuel levels. Permᴰ.reverse levels) 5 (omega arith) (omega arith) (omega arith)

-- The same search over 700 entries, in the order of the levels.
many_entries :
    seek_sequence_feed_frontier (entries (λ i. i) 700) (λ fuel levels. levels) 9
    ≡ some (ok (some (699, 699)) (some 700))
unfolding seek_sequence_feed_frontier probe_index
many_entries = refl

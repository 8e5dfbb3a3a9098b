-- ===== src/Logring/Tests.antt =====
-- Runs of internal/logring/logring.go, and instances of its theorems.
use freebuff_proxy_scaleway.Base.{◌≡◌, refl, String, some, List, [], ◌∷◌, take, min}
use freebuff_proxy_scaleway.Base.Int.{pos, negsuc, positive_or}
use freebuff_proxy_scaleway.Base.Map.{lookup, insert, delete}
use freebuff_proxy_scaleway.Base.Eq.{String_eq}
use freebuff_proxy_scaleway.Logring.{Entry, new_ring, recent, push, push_all, count_of, count_key}
use freebuff_proxy_scaleway.Logring.History.{recent-push_all, history, wanted}

abbrev line : String → Entry
line m = record { time = ""; level = "INFO"; message = m; fields = [] }

abbrev three : List Entry
three = line "a" ∷ line "b" ∷ line "a" ∷ []

abbrev same : String → String
same s = s

newest_two :
    recent (push_all same three (new_ring (pos 2))) (pos 5) ≡ some (line "a" ∷ line "b" ∷ [])
unfolding recent push_all push new_ring
newest_two = refl

counted : count_of "info|a" (push_all same three (new_ring (pos 2))).counts ≡ 2
unfolding push_all push new_ring insert delete lookup count_key
counted = refl

recent-push_all_example :
    recent (push_all same three (new_ring (pos 2))) (negsuc 4)
    ≡ some (take (min (wanted (negsuc 4)) (positive_or (pos 2) 1)) (history three []))
recent-push_all_example = recent-push_all same (pos 2) (negsuc 4) three

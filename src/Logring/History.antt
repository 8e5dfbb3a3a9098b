-- ===== src/Logring/History.antt =====
-- The ring of internal/logring/logring.go against the unbounded history of what was pushed.
use freebuff_proxy_scaleway.Base.{
  ℕ, zero, suc, ◌+◌, ◌-◌, ◌%◌, ◌<◌, ◌≤◌, ◌≡◌, refl, ap, ◌∙◌, min, String, some, List, [], ◌∷◌,
  if◌then◌else◌, length, get_elem?, set, take, drop, arith, length-set,
}
use freebuff_proxy_scaleway.Base.Lists.{length-replicate, get_elem?-set_self, get_elem?-set_ne}
use native.Mathlib.Nat.{suc-add, zero-min, min-zero}
use freebuff_proxy_scaleway.Base.Int.{ℤ, pos, negsuc, positive_or}
use freebuff_proxy_scaleway.Base.Eq.{◌==◌, String_eq}
use freebuff_proxy_scaleway.Base.Map.{lookup-insert}
use freebuff_proxy_scaleway.Logring.{
  Entry, Ring, new_ring, recent_from, recent, clamp_count, push, push_all, count_key, count_of,
}
use freebuff_proxy_scaleway.Logring.Index.{step-lt, slot-step_zero, slot-step_suc}

-- The ring `r` holds the newest entries of the history `h`, which is newest first.
pub record Holds (r : Ring) (h : List Entry) : Type 0 where
  pub sized : length r.buf ≡ r.capacity
  pub within : r.next < r.capacity
  pub counted : r.filled ≡ min (length h) r.capacity
  pub kept :
      (i : ℕ)
      → i < r.capacity
      → i < length h
      → get_elem? r.buf ((r.next + r.capacity - 1 - i) % r.capacity) ≡ get_elem? h i

pub new_ring-Holds : (c : ℤ) → Holds (new_ring c) []
unfolding new_ring
new_ring-Holds c = record {
  sized = length-replicate _ _;
  within = ground arith;
  counted = ground arith;
  kept = λ i p q. absurd (omega arith);
}

module _ (to_lower : String → String) (e : Entry) (r : Ring) (h : List Entry) (s : Holds r h) where
  push-kept :
      (i : ℕ)
      → i < r.capacity
      → i < suc (length h)
      → get_elem?
          (set r.buf r.next e)
          (((r.next + 1) % r.capacity + r.capacity - 1 - i) % r.capacity)
        ≡ get_elem? (e ∷ h) i
  push-kept zero p q =
      rw (slot-step_zero r.next r.capacity s.within)
        (get_elem?-set_self r.buf r.next e (omega (arith, s.sized, s.within)))
  push-kept (suc i) p q =
      let (same, other, _) = slot-step_suc r.next r.capacity i s.within p in
      rw same (get_elem?-set_ne r.buf e other ∙ s.kept i (omega arith) (omega arith))

  pub push-Holds : Holds (push to_lower e r) (e ∷ h)
  unfolding push
  push-Holds = record {
    sized = length-set r.buf r.next e ∙ s.sized;
    within = step-lt r.next r.capacity s.within;
    counted = ground (arith, s.counted);
    kept = push-kept;
  }

-- The whole history, newest first.
abbrev pub history : List Entry → List Entry → List Entry
history [] h = h
history (e ∷ es) h = history es (e ∷ h)

push_all-Holds :
    (to_lower : String → String) (es : List Entry) (r : Ring) (h : List Entry)
    → Holds r h
    → Holds (push_all to_lower es r) (history es h)
unfolding push_all
push_all-Holds to_lower [] r h s = s
push_all-Holds to_lower (e ∷ es) r h s =
    push_all-Holds to_lower es (push to_lower e r) (e ∷ h) (push-Holds to_lower e r h s)

push_all-capacity :
    (to_lower : String → String) (es : List Entry) (r : Ring)
    → (push_all to_lower es r).capacity ≡ r.capacity
unfolding push_all push
push_all-capacity to_lower [] r = refl
push_all-capacity to_lower (e ∷ es) r = push_all-capacity to_lower es (push to_lower e r)

take-drop-suc :
    (k i : ℕ) (h : List Entry) (e : Entry)
    → get_elem? h i ≡ some e
    → e ∷ take k (drop (i + 1) h) ≡ take (suc k) (drop i h)
take-drop-suc k i [] e q = absurd (ground arith)
take-drop-suc k zero (x ∷ h) e q = ground arith
take-drop-suc k (suc i) (x ∷ h) e q = rw suc-add (take-drop-suc k i h e q)

get_elem?-some : (h : List Entry) (i : ℕ) → i < length h → (e : Entry) × (get_elem? h i ≡ some e)
get_elem?-some [] i p = elim p [ ]
get_elem?-some (x ∷ h) zero p = (x, refl)
get_elem?-some (x ∷ h) (suc i) p = get_elem?-some h i (omega arith)

recent_from-take :
    (r : Ring) (h : List Entry)
    → Holds r h
    → (k i : ℕ) → i + k ≤ r.filled
    → recent_from r k i ≡ some (take k (drop i h))
unfolding recent_from
recent_from-take r h s zero i p = refl
recent_from-take r h s (suc k) i p =
    let bound = s.counted in
    let (e, found) = get_elem?-some h i (omega arith) in
    let read = s.kept i (omega arith) (omega arith) ∙ found in
    rw (read, recent_from)
      (rw (recent_from-take r h s k (i + 1) (omega arith)) (ap some (take-drop-suc k i h e found)))

-- How many entries a caller that asks for `n` can get.
abbrev pub wanted : ℤ → ℕ
wanted (pos n) = n
wanted (negsuc n) = 0

clamp_count-min : (n : ℤ) (filled : ℕ) → clamp_count n filled ≡ min (wanted n) filled
unfolding clamp_count
clamp_count-min (pos n) filled = ground arith
clamp_count-min (negsuc n) filled = omega arith

new_ring-capacity : (c : ℤ) → (new_ring c).capacity ≡ positive_or c 1
unfolding new_ring
new_ring-capacity c = refl

take-min-length : (k : ℕ) (h : List Entry) → take (min k (length h)) h ≡ take k h
take-min-length zero h = rw zero-min
take-min-length (suc k) [] = rw min-zero
take-min-length (suc k) (x ∷ h) =
    let e : min (suc k) (suc (length h)) ≡ suc (min k (length h)) = omega arith in
    rw e (ap (◌∷◌ x) (take-min-length k h))

-- After any history of pushes, `recent` never reads out of range, and gives the newest entries of
-- the history, newest first: as many as were asked for, but no more than the capacity holds. A
-- negative count gives none.
pub recent-push_all :
    (to_lower : String → String) (c n : ℤ) (es : List Entry)
    → recent (push_all to_lower es (new_ring c)) n
      ≡ some (take (min (wanted n) (positive_or c 1)) (history es []))
unfolding recent
recent-push_all to_lower c n es =
    let r = push_all to_lower es (new_ring c) in
    let h = history es [] in
    let s = push_all-Holds to_lower es (new_ring c) [] (new_ring-Holds c) in
    let cap : r.capacity ≡ positive_or c 1 =
      push_all-capacity to_lower es (new_ring c) ∙ new_ring-capacity c in
    let count = clamp_count-min n r.filled in
    let bound = s.counted in
    let same : clamp_count n r.filled ≡ min (min (wanted n) (positive_or c 1)) (length h) =
      omega arith in
    recent_from-take r h s (clamp_count n r.filled) 0 (omega arith)
    ∙ ap (λ k. some (take k h)) same
    ∙ ap some (take-min-length (min (wanted n) (positive_or c 1)) h)

-- How many entries of a list are counted under a key.
abbrev pub tally : (String → String) → String → List Entry → ℕ
tally to_lower key [] = 0
tally to_lower key (e ∷ es) =
    (if count_key to_lower e.level e.message == key then 1 else 0) + tally to_lower key es

push-counts :
    (to_lower : String → String) (e : Entry) (r : Ring) (key : String)
    → count_of key (push to_lower e r).counts
      ≡ (if count_key to_lower e.level e.message == key then 1 else 0) + count_of key r.counts
unfolding push
push-counts to_lower e r key =
    let k = count_key to_lower e.level e.message in
    ground (arith, lookup-insert k key (count_of k r.counts + 1) r.counts, String_eq.same_iff k key)

-- The counters count every record that was pushed, also those that the ring has dropped.
counts-push_all :
    (to_lower : String → String) (key : String) (es : List Entry) (r : Ring)
    → count_of key (push_all to_lower es r).counts ≡ tally to_lower key es + count_of key r.counts
unfolding push_all
counts-push_all to_lower key [] r = omega arith
counts-push_all to_lower key (e ∷ es) r =
    ground
      (arith, counts-push_all to_lower key es (push to_lower e r), push-counts to_lower e r key)

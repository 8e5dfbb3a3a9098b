-- ===== src/Pool/Usage/History.antt =====
-- The message counts of internal/pool/quota.go after any history of chats and of counts.
use freebuff_proxy_scaleway.Base.{
  ℕ, ◌+◌, ◌-◌, ◌≤◌, ◌<◌, ◌≡◌, ◌≢◌, refl, sym, ap, ◌∙◌, inl, inr, some, List, [], ◌∷◌, ◌++◌, nat_eq,
  if◌then◌else◌, length, get_elem?, arith, Bool-cases, Option-cases,
}
use freebuff_proxy_scaleway.Base.Lists.{
  All, All-append, All-map, replicate, get_elem?-set_self, get_elem?-set_ne, get_elem?-lt,
  get_elem?-replicate,
}
use freebuff_proxy_scaleway.Base.Change.{change, get_elem?-change}
use freebuff_proxy_scaleway.Pool.Usage.{
  usage_window, drop_expired, record_chat, usage_count, usage_reset_in,
}
use freebuff_proxy_scaleway.Pool.Usage.Window.{
  recent, IsSorted, drop_expired-recent, recent-recent, recent-append, recent-IsSorted,
  append-IsSorted, recent_falls, recent-open,
}

-- A call on a token at an instant: a chat that was sent, or a reading of the count.
pub data Call : Type 0 where
  sent counted : ℕ → ℕ → Call

abbrev pub instant : Call → ℕ
instant (sent t now) = now
instant (counted t now) = now

unfoldable pub perform : Call → List (List ℕ) → List (List ℕ)
unfolding record_chat usage_count
perform (sent t now) msgs = record_chat now t msgs
perform (counted t now) msgs = (usage_count now t msgs).0

-- The calls of a history, latest first, on the counts of `n` fresh tokens.
abbrev pub counts : ℕ → List Call → List (List ℕ)
counts n [] = replicate n []
counts n (c ∷ cs) = perform c (counts n cs)

-- All chats that the history sent on a token, oldest first.
abbrev pub sent_on : ℕ → List Call → List ℕ
sent_on i [] = []
sent_on i (sent t now ∷ cs) =
    let rest = sent_on i cs in if nat_eq t i then rest ++ now ∷ [] else rest
sent_on i (counted t now ∷ cs) = sent_on i cs

abbrev pub latest : List Call → ℕ
latest [] = 0
latest (c ∷ cs) = instant c

-- The clock does not run backwards.
abbrev pub IsChronological : List Call → Type 0
IsChronological [] = Unit
IsChronological (c ∷ cs) = (latest cs ≤ instant c) × IsChronological cs

sent_on-bounded :
    (i : ℕ) (cs : List Call) → IsChronological cs → All (λ t. t ≤ latest cs) (sent_on i cs)
sent_on-bounded i [] o = tt
sent_on-bounded i (counted t now ∷ cs) o =
    All-map (λ s h. omega (arith, o.0, h)) (sent_on i cs) (sent_on-bounded i cs o.1)
sent_on-bounded i (sent t now ∷ cs) o =
    let before : All (λ s. s ≤ now) (sent_on i cs) =
      All-map (λ s h. omega (arith, o.0, h)) (sent_on i cs) (sent_on-bounded i cs o.1) in
    elim (Bool-cases (nat_eq t i)) [
      | inl e ↦ rw e (All-append (λ s. s ≤ now) (sent_on i cs) (now ∷ []) before (omega arith, tt))
      | inr e ↦ rw e before
    ]

sent_on-IsSorted : (i : ℕ) (cs : List Call) → IsChronological cs → IsSorted (sent_on i cs)
sent_on-IsSorted i [] o = tt
sent_on-IsSorted i (counted t now ∷ cs) o = sent_on-IsSorted i cs o.1
sent_on-IsSorted i (sent t now ∷ cs) o = elim (Bool-cases (nat_eq t i)) [
  | inl e ↦ rw e (
      append-IsSorted (sent_on i cs) now (sent_on-IsSorted i cs o.1)
        (All-map (λ s h. omega (arith, o.0, h)) (sent_on i cs) (sent_on-bounded i cs o.1)))
  | inr e ↦ rw e (sent_on-IsSorted i cs o.1)
]

-- What is kept for a token: its chats whose window was open at some past call.
record Kept (i : ℕ) (msgs : List (List ℕ)) (cs : List Call) : Type 0 where
  past : ℕ
  bound : past ≤ latest cs
  kept : get_elem? msgs i ≡ some (recent past (sent_on i cs))

recent_snoc : (now : ℕ) (ts : List ℕ) → recent now (ts ++ now ∷ []) ≡ recent now ts ++ now ∷ []
recent_snoc now ts =
    let own : recent now (now ∷ []) ≡ now ∷ [] = ground arith in
    recent-append now ts (now ∷ []) ∙ ap (λ x. recent now ts ++ x) own

drop_kept :
    (i now past : ℕ) (cs : List Call)
    → IsChronological cs
    → past ≤ now
    → drop_expired now (recent past (sent_on i cs)) ≡ recent now (sent_on i cs)
drop_kept i now past cs o h =
    drop_expired-recent now (recent past (sent_on i cs))
      (recent-IsSorted past (sent_on i cs) (sent_on-IsSorted i cs o))
    ∙ recent-recent now past (sent_on i cs) h

counted-change :
    (now t : ℕ) (msgs : List (List ℕ))
    → (usage_count now t msgs).0 ≡ change (drop_expired now) t msgs
unfolding usage_count
counted-change now t msgs = elim (Option-cases (get_elem? msgs t)) [
  | inl e ↦ rw (usage_count, change, e) refl
  | inr (h, e) ↦ rw (usage_count, change, e) refl
]

-- A reading of one token's count leaves every other token's history.
pub usage_count_other :
    (now t i : ℕ) (msgs : List (List ℕ))
    → t ≢ i
    → get_elem? (usage_count now t msgs).0 i ≡ get_elem? msgs i
usage_count_other now t i msgs h = elim (Option-cases (get_elem? msgs t)) [
  | inl e ↦ ap (λ m. get_elem? m i) (counted-change now t msgs) ∙ rw (change, e) refl
  | inr (x, e) ↦
      ap (λ m. get_elem? m i) (counted-change now t msgs)
      ∙ rw (change, e) (get_elem?-set_ne msgs (drop_expired now x) h)
]

counts-Kept : (n i : ℕ) (cs : List Call) → i < n → IsChronological cs → Kept i (counts n cs) cs
unfolding perform record_chat
counts-Kept n i [] h o = record {
  past = 0;
  bound = omega arith;
  kept = get_elem?-replicate n [] i h;
}
counts-Kept n i (sent t now ∷ cs) h o =
    let k = counts-Kept n i cs h o.1 in
    let f : List ℕ → List ℕ = λ x. drop_expired now x ++ now ∷ [] in
    let new = get_elem?-change f t i (counts n cs) (recent k.past (sent_on i cs)) k.kept in
    elim (Bool-cases (nat_eq t i)) [
      | inl e ↦ record {
        past = now;
        bound = omega arith;
        kept =
            new
            ∙ rw e (
                ap (λ x. some (x ++ now ∷ []))
                  (drop_kept i now k.past cs o.1 (omega (arith, k.bound, o.0)))
                ∙ ap some (sym (recent_snoc now (sent_on i cs))));
      }
      | inr e ↦ record {
        past = k.past;
        bound = omega (arith, k.bound, o.0);
        kept = new ∙ rw e refl;
      }
    ]
counts-Kept n i (counted t now ∷ cs) h o =
    let k = counts-Kept n i cs h o.1 in
    let new =
      get_elem?-change (drop_expired now) t i (counts n cs) (recent k.past (sent_on i cs)) k.kept in
    let same = ap (λ m. get_elem? m i) (counted-change now t (counts n cs)) in
    elim (Bool-cases (nat_eq t i)) [
      | inl e ↦ record {
        past = now;
        bound = omega arith;
        kept =
            same
            ∙ new
            ∙ rw e (ap some (drop_kept i now k.past cs o.1 (omega (arith, k.bound, o.0))));
      }
      | inr e ↦ record {
        past = k.past;
        bound = omega (arith, k.bound, o.0);
        kept = same ∙ new ∙ rw e refl;
      }
    ]

-- After any calls on a pool of fresh tokens the count of a token is the number of chats that were
-- sent on it and whose 24 hours have not passed.
pub usage_count-counts :
    (n i : ℕ) (cs : List Call) (now : ℕ)
    → i < n
    → IsChronological cs
    → latest cs ≤ now
    → (usage_count now i (counts n cs)).1 ≡ length (recent now (sent_on i cs))
unfolding usage_count
usage_count-counts n i cs now h o late =
    let k = counts-Kept n i cs h o in
    rw (usage_count, k.kept) (ap length (drop_kept i now k.past cs o (omega (arith, k.bound))))

falls_at :
    (msgs : List (List ℕ)) (i now later : ℕ) (h d : List ℕ)
    → get_elem? msgs i ≡ some h
    → drop_expired now h ≡ d
    → IsSorted d
    → All (λ t. now ≤ t + usage_window) d
    → now ≤ later
    → 0 < length d
    → (later ≤ now + usage_reset_in now i (usage_count now i msgs).0
        → (usage_count later i (usage_count now i msgs).0).1 ≡ (usage_count now i msgs).1)
      × (now + usage_reset_in now i (usage_count now i msgs).0 < later
          → (usage_count later i (usage_count now i msgs).0).1 < (usage_count now i msgs).1)
unfolding usage_count usage_reset_in
falls_at msgs i now later h [] e dropped sorted live after left = absurd (omega arith)
falls_at msgs i now later h (t ∷ ts) e dropped sorted live after left =
    let stored = get_elem?-set_self msgs i (t ∷ ts) (get_elem?-lt msgs i h e) in
    let kept = drop_expired-recent later (t ∷ ts) sorted in
    let falls = recent_falls now later t ts sorted live.0 in
    let shut : now + (t + usage_window - now) ≡ t + usage_window = omega (arith, live.0) in
    rw (usage_count, usage_reset_in, e, dropped, stored, kept, shut)
      (λ k. ap length (falls.0 k), falls.1)

-- The announced reset of a token with a chat in the window is the instant from which its count is
-- lower: up to it the count stays, and right after it a slot is free.
pub usage_reset_in-falls :
    (n i : ℕ) (cs : List Call) (now later : ℕ)
    → i < n
    → IsChronological cs
    → latest cs ≤ now
    → now ≤ later
    → 0 < (usage_count now i (counts n cs)).1
    → let (msgs, count) = usage_count now i (counts n cs) in
      let reset = now + usage_reset_in now i msgs in
      (later ≤ reset → (usage_count later i msgs).1 ≡ count)
      × (reset < later → (usage_count later i msgs).1 < count)
unfolding usage_count usage_reset_in
usage_reset_in-falls n i cs now later h o late after some_left =
    let k = counts-Kept n i cs h o in
    let dropped = drop_kept i now k.past cs o (omega (arith, k.bound)) in
    falls_at (counts n cs) i now later (recent k.past (sent_on i cs)) (recent now (sent_on i cs))
      k.kept dropped (recent-IsSorted now (sent_on i cs) (sent_on-IsSorted i cs o))
      (recent-open now (sent_on i cs)) after
      (omega (arith, some_left, usage_count-counts n i cs now h o late))

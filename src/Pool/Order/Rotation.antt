-- ===== src/Pool/Order/Rotation.antt =====
-- The round-robin rotation of internal/pool/acquire.go reaches every index once.
use freebuff_proxy_scaleway.Base.{
  ℕ, zero, suc, ◌+◌, ◌-◌, ◌≤◌, ◌<◌, ◌≡◌, refl, ◌&&◌, ltb, leb, if◌then◌else◌, arith, Bool-cases,
  ltb→lt, inl, inr,
}
use freebuff_proxy_scaleway.Base.Mod.{mod_wrap}
use freebuff_proxy_scaleway.Base.Counts.{occurrences}
use freebuff_proxy_scaleway.Pool.Order.{rotation}

-- How far an index is from the start, going round.
abbrev distance : ℕ → ℕ → ℕ → ℕ
distance n start i = if leb start i then i - start else i + n - start

occurrences-rotation_from :
    (n start i k offset : ℕ)
    → start < n
    → i < n
    → offset + k ≤ n
    → occurrences i (rotation n start k offset)
      ≡ (if leb offset (distance n start i) && ltb (distance n start i) (offset + k) then 1 else 0)
unfolding rotation
occurrences-rotation_from n start i zero offset s h b = ground arith
occurrences-rotation_from n start i (suc k) offset s h b = ground (
  arith,
  mod_wrap (start + offset) n (omega arith),
  occurrences-rotation_from n start i k (offset + 1) s h (omega arith),
)

occurrences-rotation_out :
    (n start i k offset : ℕ)
    → start < n
    → n ≤ i
    → offset + k ≤ n
    → occurrences i (rotation n start k offset) ≡ 0
unfolding rotation
occurrences-rotation_out n start i zero offset s h b = refl
occurrences-rotation_out n start i (suc k) offset s h b = ground (
  arith,
  mod_wrap (start + offset) n (omega arith),
  occurrences-rotation_out n start i k (offset + 1) s h (omega arith),
)

pub occurrences-rotation :
    (n start i : ℕ) → start < n → occurrences i (rotation n start n 0) ≡ (if ltb i n then 1 else 0)
occurrences-rotation n start i s = elim (Bool-cases (ltb i n)) [
  | inl e ↦
      let h : i < n = ltb→lt i n e in
      let c = occurrences-rotation_from n start i n 0 s h (omega arith) in ground (arith, c)
  | inr e ↦ rw e (occurrences-rotation_out n start i n 0 s (ground arith) (omega arith))
]

-- ===== src/Socket/Buffer.antt =====
-- `bigsockbuf`: the size that is set.
use flowstatd.Base.{
  ℕ, zero, suc, ◌≤◌, ◌<◌, ◌≡◌, refl, arith, ltb, Returns, Returns-weaken, ltb→lt, ◌⊎◌, ℤ, pos,
  negsuc, Bool-cases, inl, inr,
}
use flowstatd.Socket.{SetResult, accepted, no_buffers, failed, smaller, bigsockbuf}

-- What the returned size says: a size that was accepted, above 4096 and at most the one asked for; 0; or
-- -1.
abbrev pub IsSize : (ℕ → SetResult) → ℕ → ℤ → Type 0
IsSize setsockopt n (pos zero) = Unit
IsSize setsockopt n (pos (suc k)) = (setsockopt (suc k) ≡ accepted) × (4096 < suc k) × (suc k ≤ n)
IsSize setsockopt n (negsuc k) = k ≡ 0

IsSize-weaken :
    (setsockopt : ℕ → SetResult) (m n : ℕ) (r : ℤ)
    → m ≤ n
    → IsSize setsockopt m r
    → IsSize setsockopt n r
IsSize-weaken setsockopt m n (pos zero) h k = k
IsSize-weaken setsockopt m n (pos (suc r)) h k = (k.0, k.1, omega (arith, k.2))
IsSize-weaken setsockopt m n (negsuc r) h k = k

smaller-lt : (n : ℕ) → 4096 < n → smaller n < n
unfolding smaller
smaller-lt n h = ground arith

SetResult-cases : (r : SetResult) → (r ≡ accepted) ⊎ (r ≡ failed) ⊎ (r ≡ no_buffers)
SetResult-cases accepted = inl refl
SetResult-cases failed = inr (inl refl)
SetResult-cases no_buffers = inr (inr refl)

accepted-IsSize :
    (setsockopt : ℕ → SetResult) (n : ℕ)
    → 4096 < n
    → setsockopt n ≡ accepted
    → IsSize setsockopt n (pos n)
accepted-IsSize setsockopt zero h e = absurd (omega arith)
accepted-IsSize setsockopt (suc n) h e = (e, h, omega arith)

-- With more fuel than the size asked for, the loop ends: with a size that the kernel accepted, above
-- 4096 and at most the one asked for, or with 0 or -1.
pub bigsockbuf_lem :
    (setsockopt : ℕ → SetResult) (fuel n : ℕ)
    → n < fuel
    → Returns (bigsockbuf fuel setsockopt n) (IsSize setsockopt n)
unfolding bigsockbuf
bigsockbuf_lem setsockopt zero n h = absurd (omega arith)
bigsockbuf_lem setsockopt (suc fuel) n h = elim (Bool-cases (ltb 4096 n)) [
  | inr small ↦ rw (small, bigsockbuf) tt
  | inl large ↦ elim (SetResult-cases (setsockopt n)) [
    | inl e ↦ rw (large, bigsockbuf, e) (accepted-IsSize setsockopt n (ltb→lt 4096 n large) e)
    | inr (inl e) ↦ rw (large, bigsockbuf, e) refl
    | inr (inr e) ↦
        let less = smaller-lt n (ltb→lt 4096 n large) in
        rw (large, bigsockbuf, e)
          (Returns-weaken (bigsockbuf fuel setsockopt (smaller n)) _ _
            (bigsockbuf_lem setsockopt fuel (smaller n) (omega (arith, less)))
            (λ r k. IsSize-weaken setsockopt (smaller n) n r (omega (arith, less)) k))
  ]
]

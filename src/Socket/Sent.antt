-- ===== src/Socket/Sent.antt =====
-- `SendBufToSock`: where the loop ends.
use flowstatd.Base.{
  ℕ, zero, suc, ◌+◌, ◌-◌, ◌≤◌, ◌<◌, ◌≡◌, inl, inr, arith, Option, none, some, Returns, Option-cases,
}
use flowstatd.Socket.{Sending, sent, died, send_buf_to_sock}

-- What `send` on a connected socket promises: it takes no more bytes than it is given, and some of them
-- if there are any; or it fails.
abbrev pub Sends : (ℕ → ℕ → Option ℕ) → Type 0
Sends send = (p n k : ℕ) → send p n ≡ some k → (k ≤ n) × (0 < n → 0 < k)

-- At the end of the buffer, or in `Diep` after an error of `send` at the place reached.
abbrev pub IsSent : (ℕ → ℕ → Option ℕ) → ℕ → Sending × ℕ → Type 0
IsSent send len (sent, p) = p ≡ len
IsSent send len (died, p) = send p (len - p) ≡ none

-- With more fuel than the buffer has bytes left, the loop ends: either at the end of the buffer, or at an
-- error of `send`.
pub send_buf_to_sock_lem :
    (send : ℕ → ℕ → Option ℕ) (fuel len p : ℕ)
    → Sends send
    → p ≤ len
    → len < fuel + p
    → Returns (send_buf_to_sock fuel send len p) (IsSent send len)
unfolding send_buf_to_sock
send_buf_to_sock_lem send zero len p law h enough = absurd (omega arith)
send_buf_to_sock_lem send (suc fuel) len p law h enough = elim (Option-cases (send p (len - p))) [
  | inl e ↦ rw (e, send_buf_to_sock) e
  | inr (zero, e) ↦
      let taken = law p (len - p) zero e in rw (e, send_buf_to_sock) (ground (arith, taken))
  | inr (suc n, e) ↦
      let taken = law p (len - p) (suc n) e in
      rw (e, send_buf_to_sock)
        (send_buf_to_sock_lem send fuel len (p + suc n) law (omega (arith, taken.0)) (omega arith))
]

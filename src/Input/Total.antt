-- ===== src/Input/Total.antt =====
-- The reads and the loop of `ikcp_input`.
use fiber_kcp.Prelude.{
  ℕ, zero, suc, ◌+◌, ◌-◌, ◌≤◌, ◌<◌, ◌≡◌, refl, arith, ap, sym, subst, ◌||◌, not, ltb, ◌==◌,
  if◌then◌else◌, true, false, Bool-cases, inl, inr, List, length, drop, length-drop, Option, none,
  some, ℤ, pos, negsuc, is_neg, if_cases,
}
use fiber_kcp.Word.{signed32}
use fiber_kcp.Wire.{Header, decode_header}
use fiber_kcp.Wire.RoundTrip.{decode_header_total}
use fiber_kcp.Control.{Ikcpcb, overhead, cmd_ack}
use fiber_kcp.Input.{
  input, input_loop, Ending, stopped, finished, on_segment, mark_ack, is_command, natural,
  after_loop, too_short,
}

-- One turn of the loop over the segments, once the header is read.
abbrev turn : ℕ → Ikcpcb → ℕ → Option ℕ → Header → List ℕ → Option Ending
turn fuel k size mark h rest =
    let next =
      input_loop fuel (on_segment k h rest) (drop h.len rest) (size - overhead - h.len)
        (if h.cmd == cmd_ack then mark_ack mark h.sn else mark) in
    if not (h.conv == k.conv)
    then some (stopped k (negsuc 0))
    else if ltb (size - overhead) h.len || is_neg (signed32 h.len)
    then some (stopped k (negsuc 1))
    else if not (is_command h.cmd)
    then some (stopped k (negsuc 2))
    else if ltb (length rest) h.len
    then none
    else next

pub input_loop-turn :
    (fuel : ℕ) (k : Ikcpcb) (bytes : List ℕ) (size : ℕ) (mark : Option ℕ) (h : Header)
    (rest : List ℕ)
    → overhead ≤ size
    → decode_header bytes ≡ some (h, rest)
    → input_loop (suc fuel) k bytes size mark ≡ turn fuel k size mark h rest
unfolding input_loop
input_loop-turn fuel k bytes size mark h rest le e = rw (more, e) refl
  where
    more : ltb size overhead ≡ false
    more = ground arith

module _ (P : Option Ending → Type 0) (fuel : ℕ) (k : Ikcpcb) (size : ℕ) (mark : Option ℕ)
    (h : Header) (rest : List ℕ) where
  -- A turn ends the loop with an error, or goes on behind the segment.
  pub turn_cases :
      size ≤ length rest + overhead
      → ((e : ℤ) → P (some (stopped k e)))
      → (h.len ≤ size - overhead
          → P (
              input_loop fuel
                (on_segment k h rest)
                (drop h.len rest)
                (size - overhead - h.len)
                (if h.cmd == cmd_ack then mark_ack mark h.sn else mark)))
      → P (turn fuel k size mark h rest)
  turn_cases within stop go =
      if_cases P (not (h.conv == k.conv)) _ _ (λ _. stop (negsuc 0))
        (λ _.
          if_cases P (ltb (size - overhead) h.len || is_neg (signed32 h.len)) _ _
            (λ _. stop (negsuc 1))
            (λ fits.
              if_cases P (not (is_command h.cmd)) _ _ (λ _. stop (negsuc 2))
                (λ _.
                  if_cases P (ltb (length rest) h.len) _ _ (λ out. absurd (beyond fits out))
                    (λ _. go (len_fits fits)))))
    where
      len_fits :
          (ltb (size - overhead) h.len || is_neg (signed32 h.len)) ≡ false → h.len ≤ size - overhead
      len_fits e = ground arith

      beyond :
          (ltb (size - overhead) h.len || is_neg (signed32 h.len)) ≡ false
          → ltb (length rest) h.len ≡ true
          → ⊥
      beyond e o = ground arith

input_loop_total :
    (fuel : ℕ) (k : Ikcpcb) (bytes : List ℕ) (size : ℕ) (mark : Option ℕ)
    → size < fuel
    → size ≤ length bytes
    → (e : Ending) × (input_loop fuel k bytes size mark ≡ some e)
unfolding input_loop
input_loop_total zero k bytes size mark f l = absurd (omega arith)
input_loop_total (suc fuel) k bytes size mark f l = elim (Bool-cases (ltb size overhead)) [
  | inl done ↦ (finished k mark, rw done refl)
  | inr more ↦
      let (h, rest, e, le) = decode_header_total bytes (ground arith) in
      subst (λ o. (x : Ending) × (o ≡ some x))
        (sym (input_loop-turn fuel k bytes size mark h rest (ground arith) e))
        (turn_cases (λ o. (x : Ending) × (o ≡ some x)) fuel k size mark h rest (omega arith)
          (λ c. (_, refl))
          (λ fits.
            input_loop_total fuel (on_segment k h rest) (drop h.len rest) (size - overhead - h.len)
              (if h.cmd == cmd_ack then mark_ack mark h.sn else mark) (ground arith)
              (omega (arith, length-drop h.len rest))))
]

-- `ikcp_input` by its parts.
pub input_lem :
    (k : Ikcpcb) (bytes : List ℕ) (size : ℤ)
    → input k bytes size ≡ (
        if too_short size
        then some (k, negsuc 0)
        else after_loop k (input_loop (suc (natural size)) k bytes (natural size) none))
unfolding input
input_lem k bytes size = refl

-- ikcp_input of a size that the datagram has returns: no read goes past the end of the datagram,
-- and the loop ends.
pub input_total :
    (k : Ikcpcb) (bytes : List ℕ) (size : ℕ)
    → size ≤ length bytes
    → (r : Ikcpcb × ℤ) × (input k bytes (pos size) ≡ some r)
unfolding after_loop
input_total k bytes size l =
    let (e, p) = input_loop_total (suc size) k bytes size none (omega arith) l in
    subst (λ o. (r : Ikcpcb × ℤ) × (o ≡ some r)) (sym (input_lem k bytes (pos size)))
      (if_cases (λ o. (r : Ikcpcb × ℤ) × (o ≡ some r)) (too_short (pos size)) _ _ (λ _. (_, refl))
        (λ _. (_, ap (after_loop k) p)))

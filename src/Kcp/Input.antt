-- ===== src/Kcp/Input.antt =====
-- `inputRoutine`: whatever arrives is read without harm, and one message is handed over.
use fiber_kcp.Prelude.{
  ℕ, zero, suc, ◌≤◌, ◌≡◌, refl, sym, ◌∙◌, ap, subst, Option, some, List, [], ◌∷◌, All, All-append,
  length, length-append, length-take, length-drop, take, drop, arith, ◌==◌, if_cases, pos, ◌>>=◌,
}
use fiber_kcp.Wire.{getconv}
use fiber_kcp.Control.{Ikcpcb}
use fiber_kcp.Ack.Safe.{IsWell}
use fiber_kcp.Input.{input}
use fiber_kcp.Input.Well.{IsByte, input-IsWell}
use fiber_kcp.Kcp.{
  KcpAttr, Datagram, buf_size, zeros, over, read_into, read_conv, read_one, read_all,
}

-- A whole buffer of bytes.
abbrev pub IsBuffer : List ℕ → Type 0
IsBuffer buf = All IsByte buf × (length buf ≡ buf_size)

take-All : (n : ℕ) (bs : List ℕ) → All IsByte bs → All IsByte (take n bs)
take-All zero bs a = tt
take-All (suc n) [] a = tt
take-All (suc n) (b ∷ bs) a = (a.0, take-All n bs a.1)

drop-All : (n : ℕ) (bs : List ℕ) → All IsByte bs → All IsByte (drop n bs)
drop-All zero bs a = a
drop-All (suc n) [] a = tt
drop-All (suc n) (b ∷ bs) a = drop-All n bs a.1

over-IsBuffer : (bytes buf : List ℕ) → All IsByte bytes → IsBuffer buf → IsBuffer (over bytes buf)
unfolding over
over-IsBuffer bytes buf a b =
    let front = take buf_size bytes in
    let n = length-take buf_size bytes in
    (
      All-append IsByte front (drop (length front) buf) (take-All buf_size bytes a)
          (drop-All (length front) buf b.0),
      omega (
        arith,
        length-append front (drop (length front) buf),
        length-drop (length front) buf,
        n,
        b.1,
      ),
    )

pub zeros-IsBuffer : (n : ℕ) → All IsByte (zeros n) × (length (zeros n) ≡ n)
unfolding zeros
zeros-IsBuffer zero = (tt, refl)
zeros-IsBuffer (suc n) = let (a, l) = zeros-IsBuffer n in ((omega arith, a), ap suc l)

getconv-some : (buf : List ℕ) → 4 ≤ length buf → (conv : ℕ) × (getconv buf ≡ some conv)
unfolding getconv
getconv-some [] h = absurd (omega arith)
getconv-some (a ∷ []) h = absurd (omega arith)
getconv-some (a ∷ b ∷ []) h = absurd (omega arith)
getconv-some (a ∷ b ∷ c ∷ []) h = absurd (omega arith)
getconv-some (a ∷ b ∷ c ∷ d ∷ rest) h = (_, refl)

-- The block is well formed still.
abbrev Reads : Option (KcpAttr × Ikcpcb) → Type 0
Reads r = (a : KcpAttr) × (k : Ikcpcb) × (r ≡ some (a, k)) × IsWell k

read_conv-Reads :
    (a : KcpAttr) (buf bytes : List ℕ) (from conv : ℕ) (k : Ikcpcb)
    → IsBuffer buf
    → IsWell k
    → Reads (read_conv a buf (bytes, from) k (some conv))
unfolding read_conv read_into
read_conv-Reads a buf bytes from conv k b w =
    let n = length (take buf_size bytes) in
    let (r, e, v) = input-IsWell k buf n w b.0 (omega (arith, length-take buf_size bytes, b.1)) in
    if_cases Reads (conv == a.conv) (read_into a from (input k buf (pos n))) (some (a, k))
      (λ _.
        subst (λ x. Reads (read_into a from x)) (sym e) (record a { addr = from }, r.0, refl, v))
      (λ _. (a, k, refl, w))

read_one-Reads :
    (a : KcpAttr) (buf bytes : List ℕ) (from : ℕ) (k : Ikcpcb)
    → IsBuffer buf
    → IsWell k
    → Reads (read_one a buf (bytes, from) k)
unfolding read_one
read_one-Reads a buf bytes from k b w =
    let (conv, e) = getconv-some buf (omega (arith, b.1)) in
    subst (λ c. Reads (read_conv a buf (bytes, from) k c)) (sym e)
      (read_conv-Reads a buf bytes from conv k b w)

-- Whatever datagrams the socket delivers, of any bytes and sizes, the loop that reads them into a
-- whole buffer ends without reading past it, and leaves a well-formed control block well formed.
pub read_all_total :
    (a : KcpAttr) (buf : List ℕ) (peer : ℕ) (datagrams : List Datagram) (k : Ikcpcb)
    → All IsByte buf
    → length buf ≡ buf_size
    → All (λ d. All IsByte d.0) datagrams
    → IsWell k
    → (a' : KcpAttr) × (peer' : ℕ) × (k' : Ikcpcb) × (read_all a buf peer datagrams k
        ≡ some (a', peer', k'))
      × IsWell k'
unfolding read_all
read_all_total a buf peer [] k b l ds w = (a, peer, k, refl, w)
read_all_total a buf peer ((bytes, from) ∷ rest) k b l ds w =
    let buf' = over bytes buf in
    let (b', l') = over-IsBuffer bytes buf ds.0 (b, l) in
    let (a', k', e, v) = read_one-Reads a buf' bytes from k (b', l') w in
    let (a'', peer'', k'', e', v') = read_all_total a' buf' from rest k' b' l' ds.1 v in
    (
      a'',
      peer'',
      k'',
      ap (λ r. r >>= λ (x : KcpAttr × Ikcpcb). read_all x.0 buf' from rest x.1) e ∙ e',
      v',
    )

-- ===== src/Send/Whole.antt =====
-- `ikcp_send` in message mode, ikcp.c:469-537.
use fiber_kcp.Prelude.{
  ℕ, suc, ◌^◌, ◌≤◌, ◌<◌, ◌≡◌, refl, ap, sym, ◌∙◌, subst, List, ◌++◌, arith, length, All, leb, Bool,
  true, false, some, ℤ, pos, negsuc,
}
use fiber_kcp.Word.{add32, pattern32}
use fiber_kcp.Wire.{Segment}
use fiber_kcp.Control.{Ikcpcb}
use fiber_kcp.Send.{send, send_bytes, send_cut, fragment_count, cut}
use fiber_kcp.Send.Fragments.{
  Fits, fragment_count-Fits, cut-IsMessage, cut-HasLen, cut-contents, cut-total, length-cut,
  cut-room, cut-IsWhole,
}
use fiber_kcp.Recv.Message.{IsMessage, total, contents, HasLen, IsWhole}

-- `frags` are the fragments of `buffer` for the segment size `mss`.
pub record Carries (mss : ℕ) (buffer : List ℕ) (frags : List Segment) : Type 0 where
  pub message : IsMessage frags
  pub lens : All HasLen frags
  pub bytes : contents frags ≡ buffer
  pub size : total frags ≡ length buffer
  pub room : All (λ s. s.len ≤ mss) frags
  pub announced : IsWhole frags (length frags)

abbrev pub queued : Ikcpcb → List Segment → Ikcpcb
queued k frags = record k {
  snd_queue = k.snd_queue ++ frags;
  nsnd_que = add32 k.nsnd_que (length frags);
}

cut-Carries :
    (c mss : ℕ) (buffer : List ℕ)
    → Fits c mss (length buffer)
    → Carries mss buffer (cut (suc c) false mss buffer (length buffer))
cut-Carries c mss buffer f = record {
  message = cut-IsMessage mss c buffer (length buffer);
  lens = cut-HasLen mss c false buffer (length buffer) f refl;
  bytes = cut-contents mss c false buffer (length buffer) f refl;
  size = cut-total mss c false buffer (length buffer) f;
  room = cut-room mss (suc c) false buffer (length buffer) f.mss_int f.len_int;
  announced =
      cut-IsWhole mss c _ buffer (length buffer)
        (omega (arith, length-cut mss (suc c) false buffer (length buffer)));
}

pub positive_mss :
    (k : Ikcpcb) (buffer : List ℕ) (len : ℤ)
    → 0 < k.mss
    → send k buffer len ≡ some (send_bytes k buffer len)
unfolding send
positive_mss k buffer len h = ground arith

message_mode :
    (k : Ikcpcb) (buffer : List ℕ) (len : ℕ)
    → pattern32 k.stream ≡ 0
    → send_bytes k buffer (pos len) ≡ send_cut k false buffer len
unfolding send_bytes
message_mode k buffer len h = rw h refl

pub send_cut_few :
    (k : Ikcpcb) (stream : Bool) (buffer : List ℕ) (len c : ℕ)
    → fragment_count k.mss len ≡ c
    → c < 128
    → send_cut k stream buffer len ≡ (queued k (cut c stream k.mss buffer len), pos 0)
unfolding send_cut
send_cut_few k stream buffer len c e h = rw e (
    rw (few c h) (
      ap
        (λ n. (
          record k {
            snd_queue = k.snd_queue ++ cut c stream k.mss buffer len;
            nsnd_que = add32 k.nsnd_que n;
          },
          pos 0,
        ))
        (sym (length-cut k.mss c stream buffer len))))
  where
    few : (n : ℕ) → n < 128 → leb 128 n ≡ false
    few n h = ground arith

pub send_cut_many :
    (k : Ikcpcb) (stream : Bool) (buffer : List ℕ) (len : ℕ)
    → 128 ≤ fragment_count k.mss len
    → send_cut k stream buffer len ≡ (k, negsuc 1)
unfolding send_cut
send_cut_many k stream buffer len h = rw (many (fragment_count k.mss len) h) refl
  where
    many : (n : ℕ) → 128 ≤ n → leb 128 n ≡ true
    many n h = ground arith

module _ (k : Ikcpcb) (buffer : List ℕ) (mode : pattern32 k.stream ≡ 0) (h : 0 < k.mss)
    (hm : k.mss < 2 ^ 31) (hl : length buffer < 2 ^ 31) where
  -- In message mode, with a segment size and a message below 2^31, a message that needs fewer than
  -- 128 segments is queued: behind what waits already stand its fragments, which are one message
  -- of exactly its bytes, none longer than the segment size, and nsnd_que counts them.
  pub send_queues :
      fragment_count k.mss (length buffer) < 128
      → (frags : List Segment) × (send k buffer (pos (length buffer))
          ≡ some (queued k frags, pos 0))
        × Carries k.mss buffer frags
  send_queues few = go (fragment_count-Fits k.mss (length buffer) h hm hl)
    where
      go :
          (c : ℕ) × (fragment_count k.mss (length buffer) ≡ suc c) × Fits c k.mss (length buffer)
          → (frags : List Segment) × (send k buffer (pos (length buffer))
              ≡ some (queued k frags, pos 0))
            × Carries k.mss buffer frags
      go (c, e, f) = (
        cut (suc c) false k.mss buffer (length buffer),
        positive_mss k buffer (pos (length buffer)) h
            ∙ ap some (
                message_mode k buffer (length buffer) mode
                ∙ send_cut_few k false buffer (length buffer) (suc c) e
                    (subst (λ n. n < 128) e few)),
        cut-Carries c k.mss buffer f,
      )

  -- A longer one is refused with -2 and changes nothing.
  send_refuses :
      128 ≤ fragment_count k.mss (length buffer)
      → send k buffer (pos (length buffer)) ≡ some (k, negsuc 1)
  send_refuses many =
      positive_mss k buffer (pos (length buffer)) h
      ∙ ap some (
          message_mode k buffer (length buffer) mode
          ∙ send_cut_many k false buffer (length buffer) many)

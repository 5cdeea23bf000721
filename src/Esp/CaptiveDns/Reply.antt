-- ===== src/Esp/CaptiveDns/Reply.antt =====
-- The reply's bytes, and where they overrun the buffer.
use smol_wi_fi_receiver.Base.{
  ℕ, zero, suc, ◌+◌, ◌<◌, ◌≤◌, List, [], ◌∷◌, ◌++◌, false, some, ◌≡◌, ◌↔◌, refl, ap, ◌∙◌, arith,
  ltb, ◌&&◌, ◌||◌, ◌!=◌, set, take, length, Bool-cases, inl, inr, take-set, length-set,
}
use smol_wi_fi_receiver.Base.Bytes.{byte_at, copy_at}
use smol_wi_fi_receiver.Esp.CaptiveDns.{
  answer, skip_name, reply_at, DnsReply, dns_reply, packet_size,
}

-- The loop ends before its fuel does, at or behind where it began.
skip_name_total :
    (fuel : ℕ) (packet : List ℕ) (received cursor : ℕ)
    → 0 < fuel
    → received < fuel + cursor
    → (end : ℕ) × (skip_name fuel packet received cursor ≡ some end) × (cursor ≤ end)
unfolding skip_name
skip_name_total zero packet received cursor some_fuel enough = absurd (omega arith)
skip_name_total (suc fuel) packet received cursor some_fuel enough =
    elim (Bool-cases (ltb cursor received && byte_at packet cursor != 0)) [
      | inl more ↦
          let step = cursor + (byte_at packet cursor + 1) in
          let (end, found, behind) =
            skip_name_total fuel packet received step (ground arith) (ground arith) in
          (end, rw (more, skip_name) found, omega (arith, behind))
      | inr last ↦ (cursor, rw (last, skip_name), omega arith)
    ]

-- A copy inside a buffer: what is before it, and itself.
take-copy_at_off :
    (dst src : List ℕ) (off : ℕ)
    → off + length src ≤ length dst
    → take (off + length src) (copy_at dst off src) ≡ take off dst ++ src
take-copy_at_off [] [] zero fits = refl
take-copy_at_off [] src (suc off) fits = absurd (omega arith)
take-copy_at_off [] (s ∷ src) zero fits = absurd (omega arith)
take-copy_at_off (d ∷ dst) [] zero fits = refl
take-copy_at_off (d ∷ dst) (s ∷ src) zero fits =
    ap (λ n. take n (s ∷ copy_at dst 0 src)) {x = 0 + suc (length src)} {y = suc (length src)}
      (omega arith)
    ∙ ap (◌∷◌ s) (
        ap (λ n. take n (copy_at dst 0 src)) {x = length src} {y = 0 + length src} (omega arith)
        ∙ take-copy_at_off dst src zero (omega arith))
take-copy_at_off (d ∷ dst) src (suc off) fits =
    ap (λ n. take n (d ∷ copy_at dst off src)) {x = suc off + length src}
      {y = suc (off + length src)} (omega arith)
    ∙ ap (◌∷◌ d) (take-copy_at_off dst src off (omega arith))

-- The query as received up to the question's end, marked as a response with one answer.
abbrev pub as_response : List ℕ → List ℕ
as_response question = set (set (set (set question 2 0x81) 3 0x80) 6 0) 7 1

length-as_response : (question : List ℕ) → length (as_response question) ≡ length question
length-as_response q =
    length-set (set (set (set q 2 0x81) 3 0x80) 6 0) 7 1
    ∙ length-set (set (set q 2 0x81) 3 0x80) 6 0
    ∙ length-set (set q 2 0x81) 3 0x80
    ∙ length-set q 2 0x81

take-as_response :
    (n : ℕ) (packet : List ℕ) → take n (as_response packet) ≡ as_response (take n packet)
take-as_response n q =
    take-set n (set (set (set q 2 0x81) 3 0x80) 6 0) 7 1
    ∙ ap (λ t. set t 7 1) (take-set n (set (set q 2 0x81) 3 0x80) 6 0)
    ∙ ap (λ t. set (set t 6 0) 7 1) (take-set n (set q 2 0x81) 3 0x80)
    ∙ ap (λ t. set (set (set t 3 0x80) 6 0) 7 1) (take-set n q 2 0x81)

-- What is sent for a name that ends at `end`.
record IsReplyAt (packet : List ℕ) (received end : ℕ) (r : DnsReply) : Type 0 where
  pub sent_is : r.sent ≡ end + 21
  packet_is : r.packet ≡ copy_at (as_response packet) (end + 5) answer
  pub question_in : end + 5 ≤ received
  end_in : end + 16 ≤ 512

reply_at-IsReplyAt :
    (packet : List ℕ) (received end : ℕ) (r : DnsReply)
    → reply_at packet received end ≡ some r
    → IsReplyAt packet received end r
unfolding reply_at
reply_at-IsReplyAt packet received end r found = ground arith

dns_reply-IsReplyAt :
    (packet : List ℕ) (received : ℕ) (r : DnsReply)
    → dns_reply packet received ≡ some r
    → (end : ℕ) × (skip_name (suc received) packet received 12 ≡ some end)
      × IsReplyAt packet received end r
unfolding dns_reply
dns_reply-IsReplyAt packet received r found =
    elim (Bool-cases (ltb received 17 || byte_at packet 4 != 0 || byte_at packet 5 != 1)) [
      | inl short ↦ ground (arith, short)
      | inr long ↦
          let (end, at_end, behind) =
            skip_name_total (suc received) packet received 12 (omega arith) (omega arith) in
          (end, at_end, reply_at-IsReplyAt packet received end r (rw (long, at_end) at found))
    ]

-- What a reply tells of the query whose name ends at `end`.
pub record IsReply (received end : ℕ) (r : DnsReply) : Type 0 where
  pub sent_is : r.sent ≡ end + 21
  pub question_in : end + 5 ≤ received
  pub overruns : 512 < r.sent ↔ 491 < end
  pub at_most : r.sent ≤ 517

-- If a query is answered, then the end of its name was found, with the question's type and class
-- behind it, and the reply is 21 bytes longer than that offset. It is longer than the 512 bytes of
-- the buffer exactly when the offset is above 491, and then by at most five bytes.
pub dns_reply-IsReply :
    (packet : List ℕ) (received : ℕ) (r : DnsReply)
    → dns_reply packet received ≡ some r
    → (end : ℕ) × (skip_name (suc received) packet received 12 ≡ some end) × IsReply received end r
dns_reply-IsReply packet received r found =
    let (end, at_end, reply) = dns_reply-IsReplyAt packet received r found in
    let inside = reply.end_in in
    (
      end,
      at_end,
      record {
        sent_is = reply.sent_is;
        question_in = reply.question_in;
        overruns = (
          λ over. omega (arith, reply.sent_is, over),
          λ late. omega (arith, reply.sent_is, late),
        );
        at_most = omega (arith, reply.sent_is, inside);
      },
    )

-- What the code reads of a query before it answers: at least 17 bytes, one question, and a name
-- that ends at `end` with the question's type and class behind it.
pub record IsQuestion (packet : List ℕ) (received end : ℕ) : Type 0 where
  pub long : 17 ≤ received
  pub four : byte_at packet 4 ≡ 0
  pub five : byte_at packet 5 ≡ 1
  pub at_end : skip_name (suc received) packet received 12 ≡ some end
  pub question : end + 5 ≤ received

dns_reply-IsQuestion :
    (packet : List ℕ) (received end : ℕ)
    → IsQuestion packet received end
    → end ≤ 496
    → dns_reply packet received
      ≡ some
          (record { packet = copy_at (as_response packet) (end + 5) answer; sent = (end + 5) + 16 })
unfolding dns_reply reply_at
dns_reply-IsQuestion packet received end q fits =
    let long = q.long in
    let question = q.question in
    let answered : ltb received 17 || byte_at packet 4 != 0 || byte_at packet 5 != 1 ≡ false =
      rw (q.four, q.five) (ground arith) in
    let kept : ltb received (end + 5) || ltb packet_size (end + 16) ≡ false = ground arith in
    rw (answered, q.at_end, kept) refl

-- A query in the buffer of 512 bytes, of one question and with a name that ends at or before the
-- offset 491, is answered inside the buffer: with the query up to the end of its question, its
-- header changed to that of a response with one answer, and behind it the portal's address.
pub dns_reply_bytes :
    (packet : List ℕ) (received end : ℕ)
    → length packet ≡ 512
    → IsQuestion packet received end
    → end ≤ 491
    → (r : DnsReply) × (dns_reply packet received ≡ some r)
      × (r.sent ≤ 512)
      × (take r.sent r.packet ≡ as_response (take (end + 5) packet) ++ answer)
dns_reply_bytes packet received end full q early =
    let size = length-as_response packet in
    (
      _,
      dns_reply-IsQuestion packet received end q (omega arith),
      omega arith,
      take-copy_at_off (as_response packet) answer (end + 5) (omega (arith, size, full))
          ∙ ap (◌++ answer) (take-as_response (end + 5) packet),
    )

-- A query of one question with a name that ends between the offsets 492 and 496 is answered with
-- more than the 512 bytes of the buffer.
pub dns_reply_overrun :
    (packet : List ℕ) (received end : ℕ)
    → IsQuestion packet received end
    → 492 ≤ end
    → end ≤ 496
    → (r : DnsReply) × (dns_reply packet received ≡ some r) × (512 < r.sent)
dns_reply_overrun packet received end q late fits =
    (_, dns_reply-IsQuestion packet received end q fits, omega arith)

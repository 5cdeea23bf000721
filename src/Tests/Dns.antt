-- ===== src/Tests/Dns.antt =====
-- The captive DNS at concrete queries.
use smol_wi_fi_receiver.Base.{ℕ, ◌<◌, ◌≤◌, List, ◌∷◌, ◌++◌, some, ◌≡◌, refl, arith, replicate, take}
use smol_wi_fi_receiver.Esp.CaptiveDns.{answer, skip_name, reply_at, dns_reply, DnsReply}
use smol_wi_fi_receiver.Esp.CaptiveDns.Reply.{
  IsReply, IsQuestion, as_response, dns_reply-IsReply, dns_reply_bytes, dns_reply_overrun,
}

-- A query of the name `a`, type A, class IN, in the buffer.
abbrev query : List ℕ
query =
    0x12
    ∷ 0x34
    ∷ 1
    ∷ 0
    ∷ 0
    ∷ 1
    ∷ 0
    ∷ 0
    ∷ 0
    ∷ 0
    ∷ 0
    ∷ 0
    ∷ 1
    ∷ 0x61
    ∷ 0
    ∷ 0
    ∷ 1
    ∷ 0
    ∷ 1
    ∷ replicate 493 0

-- Labels of 239 bytes each bring the end of the name to the offset 492.
abbrev long_query : List ℕ
long_query =
    0x12
    ∷ 0x34
    ∷ 1
    ∷ 0
    ∷ 0
    ∷ 1
    ∷ 0
    ∷ 0
    ∷ 0
    ∷ 0
    ∷ 0
    ∷ 0
    ∷ (239 ∷ replicate 239 0x61
        ++ (239 ∷ replicate 239 0x62)
        ++ (0 ∷ 0 ∷ 1 ∷ 0 ∷ 1 ∷ replicate 15 0))

query-IsQuestion : IsQuestion query 19 14
unfolding skip_name
query-IsQuestion = record {
  long = omega arith;
  four = refl;
  five = refl;
  at_end = refl;
  question = omega arith;
}

long_query-IsQuestion : IsQuestion long_query 497 492
unfolding skip_name
long_query-IsQuestion = record {
  long = omega arith;
  four = refl;
  five = refl;
  at_end = refl;
  question = omega arith;
}

replied :
    dns_reply query 19
    ≡ some (record {
      packet =
          0x12
          ∷ 0x34
          ∷ 0x81
          ∷ 0x80
          ∷ 0
          ∷ 1
          ∷ 0
          ∷ 1
          ∷ 0
          ∷ 0
          ∷ 0
          ∷ 0
          ∷ 1
          ∷ 0x61
          ∷ 0
          ∷ 0
          ∷ 1
          ∷ 0
          ∷ 1
          ∷ (answer ++ replicate 477 0);
      sent = 35;
    })
unfolding dns_reply skip_name reply_at
replied = refl

dns_reply-IsReply_example :
    (end : ℕ) × (skip_name 20 query 19 12 ≡ some end)
    × IsReply 19 end (dns_reply_bytes query 19 14 refl query-IsQuestion (omega arith)).0
dns_reply-IsReply_example =
    dns_reply-IsReply query 19 (dns_reply_bytes query 19 14 refl query-IsQuestion (omega arith)).0
      (dns_reply_bytes query 19 14 refl query-IsQuestion (omega arith)).1

dns_reply_bytes_example :
    (r : DnsReply) × (dns_reply query 19 ≡ some r)
    × (r.sent ≤ 512)
    × (take r.sent r.packet ≡ as_response (take 19 query) ++ answer)
dns_reply_bytes_example = dns_reply_bytes query 19 14 refl query-IsQuestion (omega arith)

dns_reply_overrun_example : (r : DnsReply) × (dns_reply long_query 497 ≡ some r) × (512 < r.sent)
dns_reply_overrun_example =
    dns_reply_overrun long_query 497 492 long_query-IsQuestion (omega arith) (omega arith)

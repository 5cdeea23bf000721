-- ===== src/Esp/CaptiveDns.antt =====
-- `dns_task` of firmware/esp32c5/main/web_portal.c: the reply to one DNS query while the setup
-- access point is up. The socket is the lwIP library's; a query is the buffer of 512 bytes after
-- `recvfrom` and the length that it returned (0 for an error, which the code treats alike).
pub mod Reply
use smol_wi_fi_receiver.Base.{
  ℕ, zero, suc, ◌+◌, List, [], ◌∷◌, Bool, true, false, Option, none, some, ltb, ◌&&◌, ◌||◌, ◌!=◌,
  if◌then◌else◌, set, take, length,
}
use smol_wi_fi_receiver.Base.Bytes.{byte_at, copy_at}

-- `sizeof(packet)`
abbrev pub packet_size : ℕ
packet_size = 512

-- 192.168.4.1, for 30 seconds, for the name of the question.
abbrev pub answer : List ℕ
answer = 0xc0 ∷ 0x0c ∷ 0 ∷ 1 ∷ 0 ∷ 1 ∷ 0 ∷ 0 ∷ 0 ∷ 30 ∷ 0 ∷ 4 ∷ 192 ∷ 168 ∷ 4 ∷ 1 ∷ []

-- The loop over the labels of the name, with fuel; `none` means that the fuel ran out.
unfoldable pub skip_name : ℕ → List ℕ → ℕ → ℕ → Option ℕ
skip_name zero packet received cursor = none
skip_name (suc fuel) packet received cursor =
    elim (ltb cursor received && byte_at packet cursor != 0) [
      | true ↦ skip_name fuel packet received (cursor + (byte_at packet cursor + 1))
      | false ↦ some cursor
    ]

-- `packet` as it is sent, and how many bytes of it.
pub record DnsReply : Type 0 where
  pub packet : List ℕ
  pub sent : ℕ

-- From the end of the name on.
unfoldable pub reply_at : List ℕ → ℕ → ℕ → Option DnsReply
reply_at packet received cursor =
    let question_end = cursor + 5 in
    let flagged = set (set packet 2 0x81) 3 0x80 in
    let counted = set (set flagged 6 0) 7 1 in
    if ltb received (cursor + 5) || ltb packet_size (cursor + 16)
    then none
    else some (record {
      packet = copy_at counted question_end answer;
      sent = question_end + length answer;
    })

-- `none` where the query is not answered.
unfoldable pub dns_reply : List ℕ → ℕ → Option DnsReply
dns_reply packet received =
    if ltb received 17 || byte_at packet 4 != 0 || byte_at packet 5 != 1
    then none
    else elim (skip_name (suc received) packet received 12) [
      | none ↦ none
      | some cursor ↦ reply_at packet received cursor
    ]

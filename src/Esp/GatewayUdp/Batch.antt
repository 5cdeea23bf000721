-- ===== src/Esp/GatewayUdp/Batch.antt =====
-- What a batch of reports holds when it arrives.
use smol_wi_fi_receiver.Base.{
  ℕ, zero, suc, ◌+◌, ◌*◌, ◌^◌, ◌<◌, ◌≤◌, List, [], ◌∷◌, ◌++◌, some, ◌==◌, if◌then◌else◌, ◌≡◌, ◌≢◌,
  inl, refl, ap, ◌∙◌, sym, arith, All, length, take, drop, replicate, length-append, length-take,
}
use smol_wi_fi_receiver.Base.Bytes.{pad, length-copy_at, take-copy_at}
use smol_wi_fi_receiver.Base.Int.{ℤ}
use smol_wi_fi_receiver.Protocol.Gateway.Kind
use smol_wi_fi_receiver.Protocol.Gateway.{sv_gateway_encode, sv_gateway_decode, GatewayMessage}
use smol_wi_fi_receiver.Protocol.Gateway.RoundTrip.{sv_gateway_decode-encode}
use smol_wi_fi_receiver.Esp.GatewayUdp.{
  Address, Gateway, Sendto, message_of, send_message, collect_reports, send_reports, negative,
  discard,
}

-- The reports' bytes, one report after the other.
abbrev pub joined : List (List ℕ) → List ℕ
joined [] = []
joined (report ∷ rest) = report ++ joined rest

abbrev pub IsReport : List ℕ → Type 0
IsReport report = length report ≡ 64

-- The sizes and ranges of the C variables, and reports of 64 bytes.
pub record IsGateway (g : Gateway) : Type 0 where
  pub id_size : length g.gateway_id ≡ 6
  pub boot_id_in : g.boot_id < 2 ^ 32
  pub sequence_in : g.sequence < 2 ^ 32
  pub reports : All IsReport g.report_queue

collect_reports_lem :
    (left : ℕ) (queue : List (List ℕ))
    → collect_reports left queue
      ≡ (joined (take left queue), length (take left queue), drop left queue)
unfolding collect_reports
collect_reports_lem zero [] = refl
collect_reports_lem zero (report ∷ queue) = refl
collect_reports_lem (suc left) [] = refl
collect_reports_lem (suc left) (report ∷ queue) = rw (collect_reports_lem left queue) (
    ap (λ n. (report ++ joined (take left queue), n, drop left queue))
      {x = length (take left queue) + 1} {y = suc (length (take left queue))} (omega arith))

length-joined :
    (left : ℕ) (queue : List (List ℕ))
    → All IsReport queue
    → length (joined (take left queue)) ≡ length (take left queue) * 64
length-joined zero [] all = refl
length-joined zero (report ∷ queue) all = refl
length-joined (suc left) [] all = refl
length-joined (suc left) (report ∷ queue) all =
    omega (
      arith,
      length-append report (joined (take left queue)),
      all.0,
      length-joined left queue all.1,
    )

-- The batch that a gateway sends of its queue.
abbrev pub batch_of : Gateway → GatewayMessage
batch_of g =
    let reports = take 8 g.report_queue in
    record {
      kind = 5;
      flags = 0;
      report_count = length reports;
      gateway_id = g.gateway_id;
      boot_id = g.boot_id;
      sequence = g.sequence;
      payload_length = length reports * 64;
      payload = pad 512 (joined reports);
    }

take_whole : (xs : List ℕ) (n : ℕ) → length xs ≡ n → take n xs ≡ xs
take_whole [] n e = rw (sym e) refl
take_whole (x ∷ xs) zero e = absurd (omega (arith, e))
take_whole (x ∷ xs) (suc n) e = ap (◌∷◌ x) (take_whole xs n (omega (arith, e)))

send_message-written :
    (sendto : Sendto) (to : Address) (kind : ℕ) (reports : List ℕ) (count : ℕ) (g : Gateway)
    (bytes : List ℕ)
    → sv_gateway_encode (message_of kind reports count g) ≡ some bytes
    → ((send_message sendto to kind reports count g).1.outbox ≡ g.outbox ++ ((to, bytes) ∷ []))
      × ((send_message sendto to kind reports count g).1.report_queue ≡ g.report_queue)
unfolding send_message
send_message-written sendto to kind reports count g bytes written =
    rw (written, send_message) (refl, refl)

-- The batch that carries the given reports.
abbrev carrying : List ℕ → ℕ → Gateway → GatewayMessage
carrying reports count g = record {
  kind = 5;
  flags = 0;
  report_count = count;
  gateway_id = g.gateway_id;
  boot_id = g.boot_id;
  sequence = g.sequence;
  payload_length = count * 64;
  payload = pad 512 reports;
}

carried :
    (reports : List ℕ) (count : ℕ) (g : Gateway)
    → IsGateway g
    → length reports ≡ count * 64
    → count ≤ 8
    → (bytes : List ℕ) × (sv_gateway_encode (message_of Kind.report_batch reports count g)
        ≡ some bytes)
      × (sv_gateway_decode bytes ≡ some (carrying reports count g))
carried reports count g v size few =
    let (bytes, written, _, read) =
      sv_gateway_decode-encode (message_of Kind.report_batch reports count g) (record {
        boot_id_in = v.boot_id_in;
        sequence_in = v.sequence_in;
        arrays = (v.id_size, length-copy_at (replicate 512 0) 0 (take (count * 64) reports));
        sendable = inl (refl, few, refl);
      }) in
    (
      bytes,
      written,
      read
          ∙ ap (λ payload. some (record (carrying reports count g) { payload = pad 512 payload }))
              (take-copy_at (replicate 512 0) (take (count * 64) reports) (count * 64)
                  (ap length whole ∙ size) (omega (arith, few))
                ∙ whole),
    )
  where
    whole : take (count * 64) reports ≡ reports
    whole = take_whole reports (count * 64) size

some_taken : (queue : List (List ℕ)) → queue ≢ [] → 0 < length (take 8 queue)
some_taken [] some_wait = absurd (some_wait refl)
some_taken (report ∷ queue) some_wait = omega arith

-- What `send_reports` does last changes the counters alone.
last_part :
    (count : ℕ) (taken after : Gateway) (sent : ℤ)
    → 0 < count
    → let out =
        if count == 0 then taken else if negative sent then discard count after else after in
      (out.outbox ≡ after.outbox) × (out.report_queue ≡ after.report_queue)
last_part count taken after sent positive = ground arith

-- When reports wait, the part of the round that sends them calls `sendto` once, for the known host,
-- with a datagram that decodes to a batch of the first eight waiting reports, or all if they are
-- fewer, in order, under this gateway's identity, boot number and next sequence number; and those
-- reports alone leave the queue, whatever `sendto` returns.
pub send_reports_batch :
    (sendto : Sendto) (server : Address) (g : Gateway)
    → IsGateway g
    → g.report_queue ≢ []
    → (bytes : List ℕ) × ((send_reports sendto server g).outbox
        ≡ g.outbox ++ ((server, bytes) ∷ []))
      × (sv_gateway_decode bytes ≡ some (batch_of g))
      × ((send_reports sendto server g).report_queue ≡ drop 8 g.report_queue)
unfolding send_reports
send_reports_batch sendto server g v some_wait =
    let queue = g.report_queue in
    let reports = joined (take 8 queue) in
    let count = length (take 8 queue) in
    let taken = record g { report_queue = drop 8 queue } in
    let (bytes, written, read) =
      carried reports count g v (length-joined 8 queue v.reports)
        (omega (arith, length-take 8 queue)) in
    let kept =
      send_message-written sendto server Kind.report_batch reports count taken bytes written in
    let (sent, after) = send_message sendto server Kind.report_batch reports count taken in
    let last = last_part count taken after sent (some_taken queue some_wait) in
    rw (collect_reports_lem 8 queue, send_reports) (bytes, last.0 ∙ kept.0, read, last.1 ∙ kept.1)

-- ===== src/Esp/WebPortal/Body.antt =====
-- The loop that receives a request's body ends, with the whole body or an error.
use smol_wi_fi_receiver.Base.{
  ℕ, zero, suc, ◌+◌, ◌-◌, ◌<◌, ◌≤◌, List, [], ◌++◌, Bool, false, Option, none, some, ◌≡◌, ◌⊎◌, true,
  inl, inr, refl, arith, length, Option-cases, Bool-cases, ◌==◌, length-append, subst, ltb, ◌||◌,
}
use smol_wi_fi_receiver.Esp.WebPortal.{
  Recv, Json, Step, refused, passed, incomplete_body, invalid_body_length, out_of_memory,
  receive_loop, receive_json, parse_body,
}

-- What ESP-IDF documents of `httpd_req_recv`: it stores at least a byte, and at most the room.
pub record Receives {R : Type 0} (recv : Recv R) : Type 0 where
  pub stored :
      (room : ℕ) (r : R) (bytes : List ℕ)
      → (recv room r).0 ≡ some bytes
      → (0 < length bytes) × (length bytes ≤ room)

module _ {R : Type 0} (recv : Recv R) where
  -- The bytes that calls of `httpd_req_recv` have brought of a body of a size, each call with the
  -- room that is left, and where the connection is then.
  pub data Reads (size : ℕ) (r : R) : List ℕ → R → Type 0 where
    started : Reads size r [] r
    read :
        (body bytes : List ℕ) (now : R)
        → Reads size r body now
        → length body < size
        → (recv (size - length body) now).0 ≡ some bytes
        → Reads size r (body ++ bytes) (recv (size - length body) now).1

  -- After some calls, and before the body is whole, one stores nothing.
  abbrev pub Fails : ℕ → R → Type 0
  Fails size r =
      (body : List ℕ) × (now : R) × Reads size r body now
      × (length body < size)
      × ((recv (size - length body) now).0 ≡ none)

  -- The calls bring this whole body.
  abbrev pub Brings : ℕ → R → List ℕ → Type 0
  Brings size r body = (length body ≡ size) × ((now : R) × Reads size r body now)

  -- The ways the loop ends for a body of a size.
  abbrev pub Ends : ℕ → R → Option (Step (List ℕ)) → Type 0
  Ends size r out =
      (Fails size r × (out ≡ some (refused incomplete_body)))
      ⊎ ((body : List ℕ) × Brings size r body × (out ≡ some (passed body)))

module _ {R : Type 0} (recv : Recv R) (receives : Receives recv) where
  module _ (size : ℕ) (r : R) where
    receive_loop-Ends :
        (fuel : ℕ) (body : List ℕ) (now : R)
        → Reads recv size r body now
        → length body ≤ size
        → size - length body < fuel
        → Ends recv size r (receive_loop recv fuel (size - length body) body now).0
    unfolding receive_loop
    receive_loop-Ends zero body now reads inside enough = absurd (omega arith)
    receive_loop-Ends (suc fuel) body now reads inside enough =
        let left = size - length body in
        elim (Bool-cases (left == 0)) [
          | inl over ↦
              rw (over, receive_loop)
                (inr (body, (ground (arith, over, inside), (now, reads)), refl))
          | inr more ↦ elim (Option-cases (recv left now).0) [
            | inl gone ↦
                rw (more, gone, receive_loop)
                  (inl ((body, now, reads, ground (arith, more), gone), refl))
            | inr (bytes, got) ↦
                let (some_bytes, fit) = receives.stored left now bytes got in
                let after = (recv left now).1 in
                let grown = length-append body bytes in
                let same : size - length (body ++ bytes) ≡ left - length bytes =
                  omega (arith, grown) in
                rw (more, got, receive_loop)
                  (subst (λ n. Ends recv size r (receive_loop recv fuel n (body ++ bytes) after).0)
                    same
                    (receive_loop-Ends fuel (body ++ bytes) after
                      (read body bytes now reads (ground (arith, more)) got)
                      (omega (arith, grown, fit, inside)) (omega (arith, grown, some_bytes))))
          ]
        ]

    whole_body : Ends recv size r (receive_loop recv (size + 1) size [] r).0
    whole_body =
        subst (λ n. Ends recv size r (receive_loop recv (size + 1) n [] r).0) {x = size - 0}
          {y = size} (omega arith)
          (receive_loop-Ends (size + 1) [] r started (omega arith) (omega arith))

  -- `receive_json` always returns, its loop within as many rounds as the body has bytes. If the
  -- length is 0 or more than 1024, it is the error for the length. If not, and there is no memory,
  -- it is the error for that. If there is, then either a call of `httpd_req_recv` stores nothing
  -- before the body is whole, and it is the error for an incomplete body; or the calls bring a body
  -- of exactly that length, and it is what the parser makes of it, an error if it is no document.
  pub receive_json-returns :
      {J I D : Type 0} (json : Json J I D) (allocated : Bool) (content_len : ℕ) (r : R)
      → let out = (receive_json recv json allocated content_len r).0 in
        (((content_len ≡ 0) ⊎ (1024 < content_len)) × (out ≡ some (refused invalid_body_length)))
        ⊎ ((1 ≤ content_len)
            × (content_len ≤ 1024)
            × (allocated ≡ false)
            × (out ≡ some (refused out_of_memory)))
        ⊎ ((1 ≤ content_len)
            × (content_len ≤ 1024)
            × (allocated ≡ true)
            × ((Fails recv content_len r × (out ≡ some (refused incomplete_body)))
                ⊎ ((body : List ℕ) × Brings recv content_len r body
                    × (out ≡ some (parse_body json (passed body))))))
  unfolding receive_json
  receive_json-returns json allocated content_len r =
      elim (Bool-cases (content_len == 0 || ltb 1024 content_len)) [
        | inl bad ↦ rw (bad, receive_json) (inl (ground arith, refl))
        | inr good ↦
            let least : 1 ≤ content_len = ground (arith, good) in
            let most : content_len ≤ 1024 = ground (arith, good) in
            elim (Bool-cases allocated) [
              | inr nothing ↦ rw (good, nothing, receive_json) (inr (inl (least, most, refl, refl)))
              | inl room ↦ elim (whole_body content_len r) [
                | inl (fails, same) ↦
                    rw (good, room, same, receive_json)
                      (inr (inr (least, most, refl, inl (fails, refl))))
                | inr (body, brought, same) ↦
                    rw (good, room, same, receive_json)
                      (inr (inr (least, most, refl, inr (body, brought, refl))))
              ]
            ]
      ]

-- ===== src/Receiver/Control/Pages.antt =====
-- What the pages of GET_TRACKER_PAGE list.
use smol_wi_fi_receiver.Base.{
  ℕ, zero, suc, ◌+◌, ◌-◌, ◌*◌, ◌%◌, ◌^◌, ◌<◌, ◌≤◌, List, [], ◌∷◌, ◌++◌, true, ◌≡◌, ◌≢◌, ◌⊎◌, inl,
  inr, refl, ap, ◌∙◌, arith, length, leb, if◌then◌else◌, ◌==◌, Bool-cases, if_holds_by, sym,
  replicate,
}
use smol_wi_fi_receiver.Base.Bytes.{byte_at, copy_at}
use smol_wi_fi_receiver.Protocol.Bridge.{BridgeMessage}
use smol_wi_fi_receiver.Receiver.Rf.{Rf}
use smol_wi_fi_receiver.Receiver.Rf.Config.{rf_receiver_tracker}
use smol_wi_fi_receiver.Receiver.Control.{
  blank_response, collect_trackers, entry_bytes, get_tracker_page,
}

-- The smaller of two numbers.
abbrev pub least : ℕ → ℕ → ℕ
least m n = if leb m n then m else n

abbrev pub Lists : ℕ × ℕ → List (ℕ × ℕ) → Type 0
Lists entry [] = ⊥
Lists entry (e ∷ rest) = (e ≡ entry) ⊎ Lists entry rest

-- The response that lists these entries of a page.
abbrev pub listing : BridgeMessage → ℕ → List (ℕ × ℕ) → BridgeMessage
listing request page entries = record (blank_response request) {
  payload =
      copy_at (replicate 64 0) 0 ((2 ∷ 0 ∷ page ∷ length entries ∷ []) ++ entry_bytes entries);
  payload_length = 60;
}

module _ {S E : Type 0} (rf : Rf S E) where
  -- `n` entries from an ID on.
  abbrev pub entries_from : ℕ → ℕ → List (ℕ × ℕ)
  entries_from zero id = []
  entries_from (suc n) id = (id, rf_receiver_tracker id rf) ∷ entries_from n (id + 1)

  -- An entry for each ID of a range.
  abbrev pub Full : ℕ → ℕ → Type 0
  Full id left = (j : ℕ) → id ≤ j → j < id + left → rf_receiver_tracker j rf ≢ 0

  collect_trackers-Full :
      (left id room : ℕ)
      → Full id left
      → collect_trackers left id room rf ≡ entries_from (least room left) id
  unfolding collect_trackers
  collect_trackers-Full zero id zero full = refl
  collect_trackers-Full zero id (suc room) full = ground arith
  collect_trackers-Full (suc left) id zero full = ground arith
  collect_trackers-Full (suc left) id (suc room) full = ground (
    arith,
    full id (omega arith) (omega arith),
    collect_trackers-Full left (id + 1) room (λ j p q. full j (omega arith) (omega arith)),
  )

  abbrev entry_of : ℕ → ℕ × ℕ
  entry_of id = (id, rf_receiver_tracker id rf)

  -- The entry of an ID that is reached before the room can be used up.
  collect_trackers-Lists :
      (left id room t : ℕ)
      → id ≤ t
      → t < id + left
      → t < id + room
      → rf_receiver_tracker t rf ≢ 0
      → Lists (entry_of t) (collect_trackers left id room rf)
  unfolding collect_trackers
  collect_trackers-Lists zero id room t from inside fits used = absurd (omega arith)
  collect_trackers-Lists (suc left) id room t from inside fits used =
      if_holds_by (Lists (entry_of t)) (room == 0) _ _ (λ e. absurd (ground arith))
        (λ some_room.
          if_holds_by (Lists (entry_of t)) (rf_receiver_tracker id rf == 0) _ _
            (λ empty.
              let other : id ≢ t =
                λ e. used (ap (λ n. rf_receiver_tracker n rf) (sym e) ∙ ground (arith, empty)) in
              collect_trackers-Lists left (id + 1) room t (omega (arith, other)) (omega arith)
                (omega arith) used)
            (λ present. elim (Bool-cases (id == t)) [
              | inl here ↦ inl (ap entry_of {x = id} {y = t} (ground (arith, here)))
              | inr other ↦ inr (
                  collect_trackers-Lists left (id + 1) (room - 1) t (ground (arith, other))
                    (omega arith) (ground (arith, some_room)) used)
            ]))

  -- An empty entry before it leaves room for one more.
  collect_trackers-Lists_gap :
      (left id room gap t : ℕ)
      → id ≤ gap
      → gap < t
      → t < id + left
      → t ≤ id + room
      → rf_receiver_tracker gap rf ≡ 0
      → rf_receiver_tracker t rf ≢ 0
      → Lists (entry_of t) (collect_trackers left id room rf)
  unfolding collect_trackers
  collect_trackers-Lists_gap zero id room gap t from before inside fits none used =
      absurd (omega arith)
  collect_trackers-Lists_gap (suc left) id room gap t from before inside fits none used =
      if_holds_by (Lists (entry_of t)) (room == 0) _ _ (λ e. absurd (ground arith))
        (λ some_room.
          if_holds_by (Lists (entry_of t)) (rf_receiver_tracker id rf == 0) _ _
            (λ empty.
              collect_trackers-Lists left (id + 1) room t (omega arith) (omega arith) (omega arith)
                used)
            (λ present.
              let other : id ≢ gap =
                λ e. ground (arith, present, ap (λ n. rf_receiver_tracker n rf) e ∙ none) in
              inr (
                collect_trackers-Lists_gap left (id + 1) (room - 1) gap t (omega (arith, other))
                  before (omega arith) (ground (arith, some_room)) none used)))

  length-collect_trackers : (left id room : ℕ) → length (collect_trackers left id room rf) ≤ room
  unfolding collect_trackers
  length-collect_trackers zero id room = omega arith
  length-collect_trackers (suc left) id room = ground (
    arith,
    length-collect_trackers left (id + 1) room,
    length-collect_trackers left (id + 1) (room - 1),
  )

  -- A request for a page below 32 of a table in which every ID has an address, from the page's
  -- first ID on, is answered with 60 bytes: the command, the status, the page's number, the count of
  -- the entries and the entries of its IDs below the tracker count, at most eight, in order, and
  -- zeros behind them.
  pub get_tracker_page-Full :
      (request : BridgeMessage) (page : ℕ)
      → 2 ≤ request.payload_length
      → byte_at request.payload 1 ≡ page
      → page < 32
      → Full (page * 8) (rf.tracker_count - page * 8)
      → let n = least 8 (rf.tracker_count - page * 8) in
        get_tracker_page request rf (blank_response request)
        ≡ listing request page (entries_from n (page * 8))
  unfolding get_tracker_page
  get_tracker_page-Full request page long asked small full =
      let short : leb 2 request.payload_length ≡ true = ground arith in
      let start : page * 8 % 2 ^ 8 ≡ page * 8 = omega arith in
      rw
        (short, asked, start, collect_trackers-Full (rf.tracker_count - page * 8) (page * 8) 8 full)
        refl

  tracker-lt : (id : ℕ) → rf_receiver_tracker id rf ≢ 0 → id < rf.tracker_count
  unfolding rf_receiver_tracker
  tracker-lt id used = ground arith

  -- The response to a request for a page, by the table.
  response-Lists :
      (request : BridgeMessage) (page t : ℕ)
      → 2 ≤ request.payload_length
      → byte_at request.payload 1 ≡ page
      → page < 32
      → Lists (entry_of t) (collect_trackers (rf.tracker_count - page * 8) (page * 8) 8 rf)
      → (entries : List (ℕ × ℕ)) × (length entries ≤ 8)
        × (get_tracker_page request rf (blank_response request) ≡ listing request page entries)
        × Lists (entry_of t) entries
  unfolding get_tracker_page
  response-Lists request page t long asked small listed =
      let short : leb 2 request.payload_length ≡ true = ground arith in
      let start : page * 8 % 2 ^ 8 ≡ page * 8 = omega arith in
      (
        collect_trackers (rf.tracker_count - page * 8) (page * 8) 8 rf,
        length-collect_trackers (rf.tracker_count - page * 8) (page * 8) 8,
        rw (short, asked, start) refl,
        listed,
      )

  -- If an ID of a page below 31 is empty, and the first ID behind the page is not, then the entry of
  -- that ID is among the entries, at most eight, of the response to a request for the page, and
  -- among those of the response to a request for the next page.
  pub get_tracker_page_twice :
      (first second : BridgeMessage) (page gap : ℕ)
      → 2 ≤ first.payload_length
      → byte_at first.payload 1 ≡ page
      → 2 ≤ second.payload_length
      → byte_at second.payload 1 ≡ page + 1
      → page < 31
      → page * 8 ≤ gap
      → gap < page * 8 + 8
      → rf_receiver_tracker gap rf ≡ 0
      → rf_receiver_tracker (page * 8 + 8) rf ≢ 0
      → let entry : ℕ × ℕ = (page * 8 + 8, rf_receiver_tracker (page * 8 + 8) rf) in
        ((entries : List (ℕ × ℕ)) × (length entries ≤ 8)
          × (get_tracker_page first rf (blank_response first) ≡ listing first page entries)
          × Lists entry entries)
        × ((entries : List (ℕ × ℕ)) × (length entries ≤ 8)
            × (get_tracker_page second rf (blank_response second)
                ≡ listing second (page + 1) entries)
            × Lists entry entries)
  get_tracker_page_twice first second page gap long asked long_too asked_next small from before none
        used =
      let inside = tracker-lt (page * 8 + 8) used in
      let next : (page + 1) * 8 ≡ page * 8 + 8 = omega arith in
      (
        response-Lists first page (page * 8 + 8) long asked (omega arith) (
            collect_trackers-Lists_gap (rf.tracker_count - page * 8) (page * 8) 8 gap (page * 8 + 8)
              from before (omega (arith, inside)) (omega arith) none used),
        response-Lists second (page + 1) (page * 8 + 8) long_too asked_next (omega arith) (
            rw next (
              collect_trackers-Lists (rf.tracker_count - (page * 8 + 8)) (page * 8 + 8) 8
                (page * 8 + 8) (omega arith) (omega (arith, inside)) (omega arith) used)),
      )

-- ===== src/Protocol/Replay/Window.antt =====
-- The replay cache is a window over the last eight stores.
use smol_wi_fi_receiver.Base.{
  ℕ, zero, suc, ◌+◌, ◌%◌, ◌<◌, ◌≤◌, List, [], ◌∷◌, true, false, none, some, ◌&&◌, ◌==◌, ltb,
  if◌then◌else◌, set, ap, ◌∙◌, length, All, All-set, set-set_self, set-set_ne, length-set, get_or,
  get_or-set_self, get_or-set_ne, ◌≡◌, ◌≢◌, refl, arith, ℕ_discrete, sym, subst,
}
use smol_wi_fi_receiver.Protocol.Bridge.{BridgeMessage}
use smol_wi_fi_receiver.Protocol.Replay.{
  ReplayEntry, ReplayCache, zero_entry, find_in, sv_command_replay_init, sv_command_replay_find,
  sv_command_replay_store,
}

-- Eight entries, and a cursor among them.
pub record IsCache (c : ReplayCache) : Type 0 where
  pub eight : length c.entries ≡ 8
  pub cursor_in : c.cursor < 8

pub sv_command_replay_init-IsCache : IsCache sv_command_replay_init
unfolding sv_command_replay_init
sv_command_replay_init-IsCache = omega arith

pub sv_command_replay_store-IsCache :
    (c : ReplayCache) (id : ℕ) (r : BridgeMessage)
    → IsCache c
    → IsCache (sv_command_replay_store c id r)
unfolding sv_command_replay_store
sv_command_replay_store-IsCache c id r v = record {
  eight = length-set _ _ _ ∙ v.eight;
  cursor_in = omega arith;
}

abbrev pub entry : ℕ → BridgeMessage → ReplayEntry
entry id r = record { valid = true; request_id = id; response = r }

-- An entry that does not answer for a request ID.
abbrev Silent : ℕ → ReplayEntry → Type 0
Silent id e = (e.valid && e.request_id == id) ≡ false

find_none-Silent : (id : ℕ) (es : List ReplayEntry) → find_in es id ≡ none → All (Silent id) es
unfolding find_in
find_none-Silent id [] h = tt
find_none-Silent id (e ∷ es) h = (ground arith, find_none-Silent id es (ground arith))

Silent-none : (id : ℕ) (es : List ReplayEntry) → All (Silent id) es → find_in es id ≡ none
unfolding find_in
Silent-none id [] h = refl
Silent-none id (e ∷ es) h = ground (arith, Silent-none id es h.1, h.0)

-- The only entry that may answer for an ID is the one at `p`.
abbrev OnlyAt : ℕ → ℕ → List ReplayEntry → Type 0
OnlyAt id p es = All (Silent id) (set es p zero_entry)

found_at :
    (id p : ℕ) (r : BridgeMessage) (es : List ReplayEntry)
    → p < length es
    → get_or es p zero_entry ≡ entry id r
    → OnlyAt id p es
    → find_in es id ≡ some r
unfolding find_in
found_at id p r [] h g o = absurd (omega arith)
found_at id zero r (e ∷ es) h g o = subst (λ x. find_in (x ∷ es) id ≡ some r) (sym g) (ground arith)
found_at id (suc p) r (e ∷ es) h g o = ground (arith, found_at id p r es (omega arith) g o.1, o.0)

-- Stores in order, oldest first.
abbrev pub stores : ReplayCache → List (ℕ × BridgeMessage) → ReplayCache
stores c [] = c
stores c ((id, r) ∷ rest) = stores (sv_command_replay_store c id r) rest

abbrev pub Others : ℕ → List (ℕ × BridgeMessage) → Type 0
Others id = All (λ s. s.0 ≢ id)

Silent-entry : (id other : ℕ) (r : BridgeMessage) → other ≢ id → Silent id (entry other r)
Silent-entry id other r h = ground arith

-- Once no entry answers for an ID, storing others keeps it so.
Silent-stores :
    (id : ℕ) (c : ReplayCache) (rest : List (ℕ × BridgeMessage))
    → All (Silent id) c.entries
    → Others id rest
    → All (Silent id) (stores c rest).entries
unfolding sv_command_replay_store
Silent-stores id c [] h o = h
Silent-stores id c ((other, r) ∷ rest) h o =
    Silent-stores id (sv_command_replay_store c other r) rest
      (All-set (Silent id) c.entries c.cursor (entry other r) h (Silent-entry id other r o.0)) o.1

-- The ID is stored at `p`, and nowhere else.
record IsAt (id p : ℕ) (r : BridgeMessage) (c : ReplayCache) : Type 0 where
  valid : IsCache c
  place : p < 8
  kept : get_or c.entries p zero_entry ≡ entry id r
  only : OnlyAt id p c.entries

store-IsAt :
    (id p other : ℕ) (r s : BridgeMessage) (c : ReplayCache)
    → IsAt id p r c
    → other ≢ id
    → c.cursor ≢ p
    → IsAt id p r (sv_command_replay_store c other s)
store-IsAt id p other r s c a h ne = record {
  valid = sv_command_replay_store-IsCache c other s a.valid;
  place = a.place;
  kept =
      unfold sv_command_replay_store in
      get_or-set_ne c.entries c.cursor p (entry other s) zero_entry ne ∙ a.kept;
  only =
      unfold sv_command_replay_store in
      subst (All (Silent id))
        (set-set_ne c.entries p c.cursor zero_entry (entry other s) (λ e. ne (sym e)))
        (All-set (Silent id) (set c.entries p zero_entry) c.cursor (entry other s) a.only
          (Silent-entry id other s h));
}

-- The store that comes round to `p` again drops the ID.
store_evicts :
    (id p other : ℕ) (r s : BridgeMessage) (c : ReplayCache)
    → IsAt id p r c
    → other ≢ id
    → c.cursor ≡ p
    → All (Silent id) (sv_command_replay_store c other s).entries
unfolding sv_command_replay_store
store_evicts id p other r s c a h e = rw e (
    subst (All (Silent id)) (set-set_self c.entries p zero_entry (entry other s)) (
      All-set (Silent id) (set c.entries p zero_entry) p (entry other s) a.only
        (Silent-entry id other s h)))

cursor-store :
    (c : ReplayCache) (id : ℕ) (r : BridgeMessage)
    → (sv_command_replay_store c id r).cursor ≡ (c.cursor + 1) % 8
unfolding sv_command_replay_store
cursor-store c id r = omega arith

window_from :
    (id p k : ℕ) (r : BridgeMessage) (c : ReplayCache) (rest : List (ℕ × BridgeMessage))
    → IsAt id p r c
    → (p + 1 + k) % 8 ≡ c.cursor
    → k ≤ 7
    → Others id rest
    → sv_command_replay_find (stores c rest) id ≡ (if ltb (k + length rest) 8 then some r else none)
unfolding sv_command_replay_find
window_from id p k r c [] a e h o =
    found_at id p r c.entries (omega (arith, a.valid.eight, a.place)) a.kept a.only ∙ ground arith
window_from id p k r c ((other, s) ∷ rest) a e h o = elim (ℕ_discrete c.cursor p) [
  | yes same ↦
      Silent-none id (stores (sv_command_replay_store c other s) rest).entries (
        Silent-stores id (sv_command_replay_store c other s) rest
          (store_evicts id p other r s c a o.0 same) o.1)
      ∙ ground (arith, a.place)
  | no apart ↦
      window_from id p (k + 1) r (sv_command_replay_store c other s) rest
        (store-IsAt id p other r s c a o.0 apart) (omega (arith, cursor-store c other s))
        (omega (arith, a.place)) o.1
      ∙ ap (λ t. if ltb t 8 then some r else none) {x = k + 1 + length rest}
          {y = k + suc (length rest)} (omega arith)
]

-- After a response is stored under a request ID that the cache did not hold, and then any stores
-- under other IDs, the ID is found, with that response, exactly when these stores were fewer
-- than eight.
pub find-stores :
    (c : ReplayCache) (id : ℕ) (r : BridgeMessage) (rest : List (ℕ × BridgeMessage))
    → IsCache c
    → sv_command_replay_find c id ≡ none
    → Others id rest
    → sv_command_replay_find (stores (sv_command_replay_store c id r) rest) id
      ≡ (if ltb (length rest) 8 then some r else none)
find-stores c id r rest v fresh o =
    window_from id c.cursor 0 r (sv_command_replay_store c id r) rest placed
      (omega (arith, cursor-store c id r)) (omega arith) o
    ∙ ap (λ t. if ltb t 8 then some r else none) {x = 0 + length rest} {y = length rest}
        (omega arith)
  where
    silent : All (Silent id) c.entries
    silent = find_none-Silent id c.entries (unfold sv_command_replay_find in fresh)

    placed : IsAt id c.cursor r (sv_command_replay_store c id r)
    placed = record {
      valid = sv_command_replay_store-IsCache c id r v;
      place = v.cursor_in;
      kept =
          unfold sv_command_replay_store in
          get_or-set_self c.entries c.cursor (entry id r) zero_entry
            (omega (arith, v.eight, v.cursor_in));
      only =
          unfold sv_command_replay_store in
          subst (All (Silent id)) (sym (set-set_self c.entries c.cursor (entry id r) zero_entry))
            (All-set (Silent id) c.entries c.cursor zero_entry silent refl);
    }

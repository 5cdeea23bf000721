-- ===== src/Esp/WebPortal/Group.antt =====
-- The group that the page sends is the group that the receiver sets.
use smol_wi_fi_receiver.Base.{
  subst, ℕ, List, [], ◌∷◌, ◌++◌, Bool, true, false, some, ◌≡◌, refl, ◌∙◌, sym, arith, length,
  Option-cases, Bool-cases, inl, inr, replicate, drop, if◌then◌else◌,
}
use smol_wi_fi_receiver.Base.Bytes.{pad, read_le48}
use smol_wi_fi_receiver.Protocol.Id48.{sv_id48_parse, sv_id48_format}
use smol_wi_fi_receiver.Protocol.Id48.Canonical.{lower_text, sv_id48_format-parse}
use smol_wi_fi_receiver.Receiver.Storage.{Nvs}
use smol_wi_fi_receiver.Receiver.Rf.{Rf}
use smol_wi_fi_receiver.Receiver.Rf.Radio.{Esb}
use smol_wi_fi_receiver.Receiver.Rf.Config.{rf_receiver_set_group}
use smol_wi_fi_receiver.Receiver.Control.Command
use smol_wi_fi_receiver.Receiver.Control.{execute, basic_response, blank_response}
use smol_wi_fi_receiver.Esp.BridgeSpi.Frame.{command_message}
use smol_wi_fi_receiver.Esp.WebPortal.{Json, secondary_field, group_id_field}
use smol_wi_fi_receiver.Esp.WebPortal.Commands.{group_command}

-- Six bytes behind two others are where the receiver reads them.
read_le48-command :
    (first second : ℕ) (id : List ℕ)
    → length id ≡ 6
    → read_le48 (drop 2 (pad 64 (first ∷ second ∷ id))) ≡ read_le48 id
read_le48-command first second (a ∷ b ∷ c ∷ d ∷ e ∷ f ∷ []) size = refl
read_le48-command first second _ size = absurd (omega arith)

-- The command's bytes, as the receiver looks at them.
set_group_executed :
    {S E : Type 0} (nvs : Nvs S) (esb : Esb E) (now errors rid sequence : ℕ) (secondary : Bool)
    (id : List ℕ) (rf : Rf S E)
    → length id ≡ 6
    → let command = Command.set_group ∷ (if secondary then 1 else 0) ∷ id in
      let request = command_message rid command sequence in
      let (result, after) = rf_receiver_set_group nvs esb secondary (read_le48 id) rf in
      execute nvs esb now errors request rf
      ≡ (basic_response Command.set_group result (blank_response request), after)
unfolding execute
set_group_executed nvs esb now errors rid sequence true (a ∷ b ∷ c ∷ d ∷ e ∷ f ∷ []) rf six = refl
set_group_executed nvs esb now errors rid sequence false (a ∷ b ∷ c ∷ d ∷ e ∷ f ∷ []) rf six = refl
set_group_executed nvs esb now errors rid sequence _ _ rf six = absurd (omega arith)

injected : {m n : List ℕ} → some m ≡ some n → m ≡ n
injected e = cc

-- A group that the page's request has the receiver set arrives as it was sent: when the handler
-- sends a command, the document has a truth value for `secondary` and as `groupId` the text of six
-- bytes, which format to it again in lower case; and the receiver, when it executes the command,
-- does exactly `rf_receiver_set_group` with that truth value and with those bytes' number.
pub group_command-execute :
    {J I D S E : Type 0} (json : Json J I D) (nvs : Nvs S) (esb : Esb E) (document : J)
    (command : List ℕ) (now errors rid sequence : ℕ) (rf : Rf S E)
    → group_command json document ≡ some command
    → let request = command_message rid command sequence in
      (secondary : Bool) × (text : List ℕ) × (id : List ℕ) × (json.bool_of
          (json.item document secondary_field)
        ≡ some secondary)
      × (json.string_of (json.item document group_id_field) ≡ some text)
      × (sv_id48_format (replicate 13 0) id ≡ lower_text text ++ (0 ∷ []))
      × (let (result, after) = rf_receiver_set_group nvs esb secondary (read_le48 id) rf in
          execute nvs esb now errors request rf
          ≡ (basic_response Command.set_group result (blank_response request), after))
unfolding group_command
group_command-execute json nvs esb document command now errors rid sequence rf sent =
    elim (Option-cases (json.bool_of (json.item document secondary_field))) [
      | inl missing ↦ absurd (ground (arith, sent, missing))
      | inr (secondary, has_secondary) ↦
          elim (Option-cases (json.string_of (json.item document group_id_field))) [
            | inl missing ↦ absurd (ground (arith, sent, has_secondary, missing))
            | inr (text, has_text) ↦
                let parse = sv_id48_parse (replicate 6 0) text in
                elim (Bool-cases parse.0) [
                  | inr bad ↦ absurd (ground (arith, sent, has_secondary, has_text, bad))
                  | inl good ↦
                      let id = parse.1 in
                      let back =
                        sv_id48_format-parse (replicate 13 0) (replicate 6 0) text id refl refl
                          (λ i. (good i, id)) in
                      let made : List ℕ = Command.set_group ∷ (if secondary then 1 else 0) ∷ id in
                      let shape : group_command json document ≡ some made =
                        rw (has_secondary, has_text, good, group_command) refl in
                      let it_is : made ≡ command = injected (sym shape ∙ sent) in
                      (
                        secondary,
                        text,
                        id,
                        has_secondary,
                        has_text,
                        back.2,
                        subst
                            (λ c.
                              let request = command_message rid c sequence in
                              let (result, after) =
                                rf_receiver_set_group nvs esb secondary (read_le48 id) rf in
                              execute nvs esb now errors request rf ≡ (
                                basic_response Command.set_group result (blank_response request),
                                after,
                              ))
                            it_is
                            (set_group_executed nvs esb now errors rid sequence secondary id rf
                              back.0),
                      )
                ]
          ]
    ]

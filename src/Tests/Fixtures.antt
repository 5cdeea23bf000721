-- ===== src/Tests/Fixtures.antt =====
-- A storage, a radio driver and a receiver for the runs.
use smol_wi_fi_receiver.Base.{
  ◌≡◌, ℕ, suc, ◌==◌, [], ◌∷◌, true, false, Option, none, some, if◌then◌else◌, replicate, refl,
  arith,
}
use smol_wi_fi_receiver.Base.Int.{ℤ, pos, negsuc}
use smol_wi_fi_receiver.Receiver.Errno.{enoent}
use smol_wi_fi_receiver.Receiver.Report.{Builder, zero_record}
use smol_wi_fi_receiver.Receiver.Storage.{Nvs, blank}
use smol_wi_fi_receiver.Receiver.Storage.Stored.{NvsLaws}
use smol_wi_fi_receiver.Receiver.Rf.{Rf}
use smol_wi_fi_receiver.Receiver.Rf.Radio.{Esb}
use smol_wi_fi_receiver.Receiver.Control.{Control}
use smol_wi_fi_receiver.Protocol.Replay.{sv_command_replay_init}

-- The entries by ID.
abbrev pub Flash : Type 0
Flash = ℕ → Option ℕ

abbrev pub erased : Flash
erased id = none

abbrev read_entry : Option ℕ → ℕ → ℤ × ℕ
read_entry none old = (enoent, old)
read_entry (some value) old = (pos 8, value)

abbrev pub flash_nvs : Nvs Flash
flash_nvs = record {
  nvs_mount = λ s. (pos 0, s);
  nvs_read = λ s id old. read_entry (s id) old;
  nvs_write = λ s id value. (pos 8, λ j. if id == j then some value else s j);
  nvs_delete = λ s id. (pos 0, λ j. if id == j then none else s j);
}

pub flash_nvs_laws : NvsLaws flash_nvs
flash_nvs_laws = record {
  content = λ s. s;
  read_absent = λ s id old e. ground (arith, e);
  read_present = λ s id old e. ground (arith, e);
  written = λ s id value j e. refl;
  deleted = λ s id j e. refl;
  mounted = λ s j e. refl;
}

pub erased_lem : (id : ℕ) → flash_nvs_laws.content erased id ≡ none
unfolding flash_nvs_laws
erased_lem id = refl

-- A radio on which every call succeeds; it counts them.
abbrev pub counting : Esb ℕ
counting call calls = (pos 0, suc calls)

abbrev pub no_reports : Builder
no_reports = record {
  queue = replicate 128 zero_record;
  read_index = 127;
  write_index = 127;
  tracker_addresses = replicate 32 0;
  registration_cursor = 0;
  last_registration_ms = negsuc 99;
  drops = 0;
}

-- A primary receiver that pairs, with one tracker so far.
abbrev pub one_paired : Rf Flash ℕ
one_paired = record {
  receiver_id = 0x665544332211;
  group_id = 0x665544332211;
  tracker_addresses = 0xa5046fe8a5f5 ∷ replicate 31 0;
  tracker_count = 1;
  primary = true;
  pairing = true;
  radio_enabled = true;
  esb_initialized = true;
  received_packets = 0;
  crc_errors = 0;
  config_generation = 0;
  persist_queue = [];
  storage = blank erased;
  builder = record no_reports { tracker_addresses = 0xa5046fe8a5f5 ∷ replicate 31 0 };
  esb = 0;
}

abbrev pub fresh_control : Control Flash ℕ
fresh_control = record { cache = sv_command_replay_init; rf = one_paired; reboot_scheduled = false }

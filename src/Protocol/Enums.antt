-- ===== src/Protocol/Enums.antt =====
-- The enumerations that backend/pc_client/protocol.py builds from the tables of
-- protocol/thermometer_protocol.json: the members, their numbers, and the lookup by number.
use ece4880_project.Prelude.{
  ℕ, ◌≡◌, refl, Bool, Option, none, some, ◌==◌, if◌then◌else◌, arith, true,
}

pub data Opcode : Type 0 where
  get_current set_display get_history_meta get_history_chunk : Opcode
  auth_begin auth_prove reset_bond get_history_chunk_compact : Opcode

pub data Status : Type 0 where
  success invalid_command invalid_sensor invalid_value not_available internal_error : Status
  unsupported_version authentication_required authentication_failed authentication_locked : Status

pub data VisibleState : Type 0 where
  off on disconnected : VisibleState

pub data DataStatus : Type 0 where
  valid disconnected : DataStatus

abbrev pub opcode_number : Opcode → ℕ
opcode_number get_current = 1
opcode_number set_display = 2
opcode_number get_history_meta = 3
opcode_number get_history_chunk = 4
opcode_number auth_begin = 5
opcode_number auth_prove = 6
opcode_number reset_bond = 7
opcode_number get_history_chunk_compact = 8

abbrev pub status_number : Status → ℕ
status_number success = 0
status_number invalid_command = 1
status_number invalid_sensor = 2
status_number invalid_value = 3
status_number not_available = 4
status_number internal_error = 5
status_number unsupported_version = 6
status_number authentication_required = 7
status_number authentication_failed = 8
status_number authentication_locked = 9

abbrev pub state_number : VisibleState → ℕ
state_number off = 0
state_number on = 1
state_number VisibleState.disconnected = 2

abbrev pub data_status_number : DataStatus → ℕ
data_status_number valid = 0
data_status_number DataStatus.disconnected = 1

-- `Opcode(n)`: `none` where Python raises `ValueError`.
unfoldable pub opcode_of : ℕ → Option Opcode
opcode_of n =
    if n == 1
    then some get_current
    else if n == 2
    then some set_display
    else if n == 3
    then some get_history_meta
    else if n == 4
    then some get_history_chunk
    else if n == 5
    then some auth_begin
    else if n == 6
    then some auth_prove
    else if n == 7
    then some reset_bond
    else if n == 8
    then some get_history_chunk_compact
    else none

-- `Status(n)`
unfoldable pub status_of : ℕ → Option Status
status_of n =
    if n == 0
    then some success
    else if n == 1
    then some invalid_command
    else if n == 2
    then some invalid_sensor
    else if n == 3
    then some invalid_value
    else if n == 4
    then some not_available
    else if n == 5
    then some internal_error
    else if n == 6
    then some unsupported_version
    else if n == 7
    then some authentication_required
    else if n == 8
    then some authentication_failed
    else if n == 9
    then some authentication_locked
    else none

-- `VisibleState(n)`
unfoldable pub state_of : ℕ → Option VisibleState
state_of n =
    if n == 0
    then some off
    else if n == 1
    then some on
    else if n == 2
    then some VisibleState.disconnected
    else none

-- `DataStatus(n)`
unfoldable pub data_status_of : ℕ → Option DataStatus
data_status_of n =
    if n == 0 then some valid else if n == 1 then some DataStatus.disconnected else none

-- `a is b` of two members
abbrev pub same_opcode : Opcode → Opcode → Bool
same_opcode a b = opcode_number a == opcode_number b

abbrev pub is_success : Status → Bool
is_success s = status_number s == 0

pub opcode_of-opcode_number : (o : Opcode) → opcode_of (opcode_number o) ≡ some o
unfolding opcode_of
opcode_of-opcode_number get_current = refl
opcode_of-opcode_number _ = refl

pub opcode_number-opcode_of : (n : ℕ) (o : Opcode) → opcode_of n ≡ some o → opcode_number o ≡ n
unfolding opcode_of
opcode_number-opcode_of n o h = ground arith

pub same_opcode_eq : (a b : Opcode) → same_opcode a b ≡ true → a ≡ b
same_opcode_eq a b h = cc (opcode_of-opcode_number a, opcode_of-opcode_number b, number)
  where
    number : opcode_number a ≡ opcode_number b
    number = ground arith

pub same_opcode_refl : (o : Opcode) → same_opcode o o ≡ true
same_opcode_refl o = ground arith

pub status_of-status_number : (s : Status) → status_of (status_number s) ≡ some s
unfolding status_of
status_of-status_number success = refl
status_of-status_number _ = refl

pub status_number-status_of : (n : ℕ) (s : Status) → status_of n ≡ some s → status_number s ≡ n
unfolding status_of
status_number-status_of n s h = ground arith

pub is_success_eq : (s : Status) → is_success s ≡ true → s ≡ success
is_success_eq success h = refl
is_success_eq _ h = cc

pub state_of-state_number : (s : VisibleState) → state_of (state_number s) ≡ some s
unfolding state_of
state_of-state_number off = refl
state_of-state_number _ = refl

pub data_status_of-data_status_number :
    (s : DataStatus) → data_status_of (data_status_number s) ≡ some s
unfolding data_status_of
data_status_of-data_status_number valid = refl
data_status_of-data_status_number _ = refl

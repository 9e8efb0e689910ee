-- ===== src/Wire/Packets.antt =====
-- The codes, version numbers and packets that ClickHouse_Wire.h declares.
use asabru_engine.Common.{ℕ, ◌^◌, ◌<◌, List}

abbrev pub IsByte : ℕ → Type 0
IsByte b = b < 256

abbrev pub IsU64 : ℕ → Type 0
IsU64 v = v < 2 ^ 64

-- A `std::string` is the list of its bytes.
abbrev pub Text : Type 0
Text = List ℕ

abbrev pub dbms_version_major : ℕ
dbms_version_major = 2

abbrev pub dbms_version_minor : ℕ
dbms_version_minor = 1

abbrev pub dbms_min_revision_with_server_timezone : ℕ
dbms_min_revision_with_server_timezone = 54058

abbrev pub dbms_min_revision_with_server_display_name : ℕ
dbms_min_revision_with_server_display_name = 54372

abbrev pub dbms_min_revision_with_version_patch : ℕ
dbms_min_revision_with_version_patch = 54401

abbrev pub dbms_min_revision_with_low_cardinality_type : ℕ
dbms_min_revision_with_low_cardinality_type = 54405

abbrev pub revision : ℕ
revision = dbms_min_revision_with_low_cardinality_type

pub data ServerCode : Type 0 where
  hello block exception progress pong end_of_stream profile_info totals extremes : ServerCode
  tables_status_response log : ServerCode

abbrev pub server_code : ServerCode → ℕ
server_code ServerCode.hello = 0
server_code ServerCode.block = 1
server_code ServerCode.exception = 2
server_code ServerCode.progress = 3
server_code ServerCode.pong = 4
server_code ServerCode.end_of_stream = 5
server_code ServerCode.profile_info = 6
server_code ServerCode.totals = 7
server_code ServerCode.extremes = 8
server_code ServerCode.tables_status_response = 9
server_code ServerCode.log = 10

pub data ClientCode : Type 0 where
  hello query block cancel ping : ClientCode

abbrev pub client_code : ClientCode → ℕ
client_code ClientCode.hello = 0
client_code ClientCode.query = 1
client_code ClientCode.block = 2
client_code ClientCode.cancel = 3
client_code ClientCode.ping = 4

pub record ServerInfo : Type 0 where
  pub name : Text
  pub timezone : Text
  pub display_name : Text
  pub version_major : ℕ
  pub version_minor : ℕ
  pub version_patch : ℕ
  pub revision : ℕ

pub record ClientHelloPacket : Type 0 where
  pub client_name : Text
  pub version_major : ℕ
  pub version_minor : ℕ
  pub protocol_version : ℕ
  pub database : Text
  pub username : Text
  pub password : Text

pub record ServerHelloPacket : Type 0 where
  pub name : Text
  pub version_major : ℕ
  pub version_minor : ℕ
  pub revision : ℕ
  pub tz : Text
  pub display_name : Text
  pub version_patch : ℕ

abbrev pub max_varint_bytes : ℕ
max_varint_bytes = 10

-- ===== src/Proto/Payload.antt =====
-- pkg/proto/message.go: the payloads of the control messages. encoding/json is not code of this
-- repository: the encoding of a type of payload is a `Codec`.
use clienthub.Prelude.{ℕ, ◌≡◌, String, Bool, Option, none, some, ℤ, List, []}
use clienthub.Proto.Message.{Bytes}

pub record AuthPayload : Type 0 where
  pub client_name : String
  pub token : Bytes

pub record ServiceInfo : Type 0 where
  pub name : String
  pub protocol : String
  pub port : ℤ

pub record RegisterPayload : Type 0 where
  pub services : List ServiceInfo

pub record OpenTunnelPayload : Type 0 where
  pub target_client : String
  pub target_service : String
  pub protocol : String

pub record TunnelReadyPayload : Type 0 where
  pub session_id : ℕ
  pub source_client : String
  pub target_service : String
  pub protocol : String

pub record TunnelFailPayload : Type 0 where
  pub reason : String

pub record ClientInfo : Type 0 where
  pub name : String
  pub addr : String
  pub services : List ServiceInfo
  pub connected_at : String

pub record TunnelInfo : Type 0 where
  pub session_id : ℕ
  pub source_client : String
  pub target_client : String
  pub target_service : String
  pub protocol : String

pub record KickPayload : Type 0 where
  pub client_name : String

pub record AddForwardPayload : Type 0 where
  pub client_name : String
  pub listen_addr : String
  pub remote_client : String
  pub remote_service : String
  pub protocol : String

pub record RemoveForwardPayload : Type 0 where
  pub client_name : String
  pub listen_addr : String

pub record ForwardInfo : Type 0 where
  pub client_name : String
  pub listen_addr : String
  pub remote_client : String
  pub remote_service : String
  pub protocol : String

-- A `json.RawMessage` is its bytes; none at all are omitted.
pub record ResponsePayload : Type 0 where
  pub success : Bool
  pub message : String
  pub raw : Bytes

pub record ExposeRule : Type 0 where
  pub name : String
  pub local_addr : String
  pub protocol : String

pub record PushConfigPayload : Type 0 where
  pub expose : List ExposeRule
  pub forward : List ForwardInfo

pub record AddExposePayload : Type 0 where
  pub client_name : String
  pub rule : ExposeRule

pub record RemoveExposePayload : Type 0 where
  pub client_name : String
  pub service_name : String

pub record ExposeListEntry : Type 0 where
  pub client_name : String
  pub rule : ExposeRule

pub record ListClientsPayload : Type 0 where
  pub speed_test : Bool

pub record SpeedResultPayload : Type 0 where
  pub recv_bytes : ℤ
  pub recv_duration_ms : ℤ

-- -1 stands for what was not measured.
pub record ClientSpeedInfo : Type 0 where
  pub info : ClientInfo
  pub rtt_ms : ℤ
  pub throughput_kbps : ℤ

-- json.Marshal and json.Unmarshal at one type; `none` is their error.
pub record Codec (A : Type 0) : Type 0 where
  pub marshal : A → Option Bytes
  pub unmarshal : Bytes → Option A

-- What Marshal writes, Unmarshal reads back.
pub record IsFaithful {A : Type 0} (c : Codec A) : Type 0 where
  pub unmarshal-marshal : (a : A) → (b : Bytes) × (c.marshal a ≡ some b) × (c.unmarshal b ≡ some a)

-- `payload, _ := proto.EncodeJSON(v)`: no bytes where Marshal fails.
abbrev pub or_nil : Option Bytes → Bytes
or_nil none = []
or_nil (some b) = b

abbrev pub encode_json : {A : Type 0} → Codec A → A → Bytes
encode_json c v = or_nil (c.marshal v)

abbrev pub decode_json : {A : Type 0} → Codec A → Bytes → Option A
decode_json c b = c.unmarshal b

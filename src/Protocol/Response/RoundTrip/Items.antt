-- ===== src/Protocol/Response/RoundTrip/Items.antt =====
-- The records and nodes in the responses of crates/protocol/src/lib.rs: what is written for
-- one of them, and what is read from it.
use sevlamq.Prelude.{
  List, Option, [], ap, append-nil, arith, length, length-append, lt→==_false_left, lt→ltb, none,
  refl, some, ℕ, ◌++◌, ◌-◌, ◌<◌, ◌^◌, ◌∷◌, ◌≡◌, ◌≤◌,
}
use sevlamq.Protocol.Types.{Bytes, FetchedRecord, ClusterNode}
use sevlamq.Protocol.Result.{ok}
use sevlamq.Protocol.Writer.{be, extend, try_from}
use sevlamq.Protocol.Externals.{Externals}
use sevlamq.Protocol.Layout.{
  IsString, IsU16, IsU32, IsU64, concat, decode_string-field, encode_string-extends, length-concat,
  string_field, total, written,
}
use sevlamq.Protocol.Primitives.{ensure_remaining-le, get_uint-be, length-be, read_bytes-append}
use sevlamq.Protocol.Response.Encode.{extend_key, put_fetched, put_key_len, put_node}
use sevlamq.Protocol.Response.Decode.{decode_fetched, decode_fetched_key, decode_node}
use sevlamq.Protocol.Response.RoundTrip.{concat-onto, onto}

abbrev pub key_code : Option Bytes → ℕ
key_code none = 2 ^ 32 - 1
key_code (some key) = length key

abbrev pub key_text : Option Bytes → Bytes
key_text none = []
key_text (some key) = key

abbrev pub IsShortKey : Option Bytes → Type 0
IsShortKey none = Unit {0}
IsShortKey (some key) = length key < 2 ^ 31

abbrev pub IsFetched : FetchedRecord → Type 0
IsFetched f = IsU64 f.offset × IsU64 f.timestamp_ms × IsShortKey f.key × (length f.value < 2 ^ 32)

abbrev pub fetched_fields : FetchedRecord → List Bytes
fetched_fields f =
    be 8 f.offset
    ∷ be 8 f.timestamp_ms
    ∷ be 4 (key_code f.key)
    ∷ be 4 (length f.value)
    ∷ key_text f.key
    ∷ f.value
    ∷ []

put_key_len-written :
    (key : Option Bytes) (buffer : Bytes)
    → IsShortKey key
    → put_key_len key buffer ≡ (ok tt, buffer ++ be 4 (key_code key))
unfolding extend try_from
put_key_len-written none buffer h = refl
put_key_len-written (some key) buffer h = rw (lt→ltb (length key) (2 ^ 31) h) refl

extend_key-written :
    (key : Option Bytes) (buffer : Bytes) → extend_key key buffer ≡ (ok tt, buffer ++ key_text key)
unfolding extend
extend_key-written none buffer = rw append-nil refl
extend_key-written (some key) buffer = refl

pub put_fetched-written :
    (f : FetchedRecord) (buffer : Bytes)
    → IsFetched f
    → put_fetched f buffer ≡ (ok tt, written buffer (fetched_fields f))
unfolding put_fetched extend try_from
put_fetched-written f buffer (ho, ht, hk, hv) = rw (
  put_key_len-written f.key (buffer ++ be 8 f.offset ++ be 8 f.timestamp_ms) hk,
  lt→ltb (length f.value) (2 ^ 32) hv,
  extend_key-written f.key,
)

key_code_bound : (key : Option Bytes) → IsShortKey key → key_code key < 2 ^ 32
key_code_bound none h = omega arith
key_code_bound (some key) h = omega arith

decode_fetched_key-code :
    (key : Option Bytes) (rest : Bytes)
    → IsShortKey key
    → decode_fetched_key (key_code key) (key_text key ++ rest) ≡ ok (key, rest)
unfolding decode_fetched_key
decode_fetched_key-code none rest h = refl
decode_fetched_key-code (some key) rest h = rw (
  lt→==_false_left (length key) (2 ^ 32 - 1) (omega arith),
  lt→ltb (length key) (2 ^ 31) h,
  read_bytes-append key rest,
)

total-fetched : (f : FetchedRecord) → 24 ≤ total (fetched_fields f)
total-fetched f = omega (
  arith,
  length-be 8 f.offset,
  length-be 8 f.timestamp_ms,
  length-be 4 (key_code f.key),
  length-be 4 (length f.value),
)

pub decode_fetched-fields :
    (f : FetchedRecord) (rest : Bytes)
    → IsFetched f
    → decode_fetched (concat (fetched_fields f) ++ rest) ≡ ok (f, rest)
unfolding decode_fetched
decode_fetched-fields f rest (ho, ht, hk, hv) = rw (
  concat-onto (fetched_fields f) rest,
  ensure_remaining-le 24 (onto (fetched_fields f) rest) (
      omega (
        arith,
        ap length (concat-onto (fetched_fields f) rest),
        length-append (concat (fetched_fields f)) rest,
        length-concat (fetched_fields f),
        total-fetched f,
      )),
  get_uint-be 8 f.offset _ ho,
  get_uint-be 8 f.timestamp_ms _ ht,
  get_uint-be 4 (key_code f.key) _ (key_code_bound f.key hk),
  get_uint-be 4 (length f.value) _ hv,
  decode_fetched_key-code f.key _ hk,
  read_bytes-append f.value rest,
)

pub record IsNode (x : Externals) (n : ClusterNode) : Type 0 where
  pub id : IsU32 n.id
  pub host : IsString x n.host
  pub port : IsU16 n.port
  pub admin_port : IsU16 n.admin_port
  pub replication_port : IsU16 n.replication_port

abbrev pub node_fields : ClusterNode → List Bytes
node_fields n =
    be 4 n.id ∷ string_field n.host ∷ be 2 n.port ∷ be 2 n.admin_port ∷ be 2 n.replication_port ∷ []

pub put_node-written :
    (x : Externals) (n : ClusterNode) (buffer : Bytes)
    → IsNode x n
    → put_node n buffer ≡ (ok tt, written buffer (node_fields n))
unfolding put_node extend
put_node-written x n buffer h = rw (encode_string-extends n.host (buffer ++ be 4 n.id) h.host.0)

pub decode_node-fields :
    (x : Externals) (n : ClusterNode) (rest : Bytes)
    → IsNode x n
    → decode_node x (concat (node_fields n) ++ rest) ≡ ok (n, rest)
unfolding decode_node
decode_node-fields x n rest h = rw (
  concat-onto (node_fields n) rest,
  ensure_remaining-le 4 (be 4 n.id ++ (string_field n.host ++ ports_rest)) (
      omega
        (arith, length-append (be 4 n.id) (string_field n.host ++ ports_rest), length-be 4 n.id)),
  get_uint-be 4 n.id _ h.id,
  decode_string-field x n.host ports_rest h.host,
  ensure_remaining-le 6 ports_rest (
      omega (
        arith,
        length-append (be 2 n.port) (be 2 n.admin_port ++ (be 2 n.replication_port ++ rest)),
        length-append (be 2 n.admin_port) (be 2 n.replication_port ++ rest),
        length-append (be 2 n.replication_port) rest,
        length-be 2 n.port,
        length-be 2 n.admin_port,
        length-be 2 n.replication_port,
      )),
  get_uint-be 2 n.port _ h.port,
  get_uint-be 2 n.admin_port _ h.admin_port,
  get_uint-be 2 n.replication_port rest h.replication_port,
)
  where
    ports_rest : Bytes
    ports_rest = be 2 n.port ++ (be 2 n.admin_port ++ (be 2 n.replication_port ++ rest))

-- ===== src/Protocol/Safety/Dispatch.antt =====
-- The decoders of the group requests, and the dispatch of `decode_request`, read by read.
use sevlamq.Protocol.Opcodes
use sevlamq.Prelude.{
  Bool, Bool-cases, Option, [], arith, drop, false, if◌then◌else◌, inl, inr, length, length-drop,
  length-take, ltb, none, refl, some, subst, sym, ℕ, ◌+◌, ◌<◌, ◌==◌, ◌∷◌, ◌≡◌, ◌≢◌, ◌≤◌,
}
use sevlamq.Protocol.Types.{
  Bytes, Request, apply_leadership, cluster_metadata, commit_offset, create_topic, describe_topic,
  fetch, fetch_committed_offset, frame_header_size, group_fetch, heartbeat, join_group, leave_group,
  list_topics, partition_status, produce, produce_batch, promote_leader,
}
use sevlamq.Protocol.Result.{Result, bind, err, ok, panic, unknown_opcode}
use sevlamq.Protocol.Externals.{Externals}
use sevlamq.Protocol.Reader.{Reader, decode_string, get_be, ◌>>=◌}
use sevlamq.Protocol.Frame.{decode_body, decode_frame, take_frame, take_frame_of_len}
use sevlamq.Protocol.Safety.{
  Safe, Safe-bind, Safe-ensure, Safe-get, Safe-if, Safe-lift, Safe-pure, Safe-raise, get_be_total,
}
use sevlamq.Protocol.Safety.Primitives.{Safe-empty, Safe-string_then}
use sevlamq.Protocol.Safety.Requests.{
  Safe-apply_leadership, Safe-create_topic, Safe-fetch, Safe-promote_leader, new_fetch_total,
  validate_topic_total,
}
use sevlamq.Protocol.Safety.Produce.{Safe-produce, Safe-produce_batch}
use sevlamq.Protocol.Request.DecodeGroup.{
  as_request, bare, decode_commit_offset, decode_describe_topic, decode_fetch_committed,
  decode_group_fetch, decode_group_generation, decode_group_member, decode_opcode,
  decode_partition_status, decode_request, decode_request_frame,
}

module _ (x : Externals) where
  -- The three names of a group request.
  names_then :
      {B : Type 0} (f : Bytes → Bytes → Bytes → Reader B)
      → ((group topic name : Bytes) → Safe 0 (f group topic name))
      → Safe 0 (
          decode_string x.is_utf8 >>= λ group. decode_string x.is_utf8 >>= λ topic.
          decode_string x.is_utf8 >>= λ name. f group topic name)
  names_then f s =
      Safe-string_then _
        (λ group.
          Safe-string_then _ (λ topic. Safe-string_then _ (λ name. s group topic name) x.is_utf8)
            x.is_utf8)
        x.is_utf8

  Safe-group_member : Safe 0 (decode_group_member x)
  unfolding decode_group_member
  Safe-group_member =
      names_then _ λ group topic name. Safe-bind 0 _ _ (Safe-empty 0) λ _. Safe-pure 0 _

  Safe-group_generation : Safe 0 (decode_group_generation x)
  unfolding decode_group_generation
  Safe-group_generation = names_then _ λ group topic name.
      Safe-ensure 8 0 _ (
        Safe-get 8 8 _ (omega arith)
          λ generation. Safe-bind 0 _ _ (Safe-empty 0) λ _. Safe-pure 0 _)

  Safe-commit_offset : Safe 0 (decode_commit_offset x)
  unfolding decode_commit_offset
  Safe-commit_offset = names_then _ λ group topic name. Safe-ensure 20 0 _ (
      Safe-get 8 20 _ (omega arith) λ generation. Safe-get 4 12 _ (omega arith) λ partition.
        Safe-get 8 8 _ (omega arith) λ offset. Safe-bind 0 _ _ (Safe-empty 0) λ _. Safe-pure 0 _)

  Safe-fetch_committed : Safe 0 (decode_fetch_committed x)
  unfolding decode_fetch_committed
  Safe-fetch_committed =
      Safe-string_then _
        (λ group.
          Safe-string_then _
            (λ topic. Safe-ensure 4 0 _ (
              Safe-get 4 4 _ (omega arith)
                λ partition. Safe-bind 0 _ _ (Safe-empty 0) λ _. Safe-pure 0 _))
            x.is_utf8)
        x.is_utf8

  Safe-group_fetch : Safe 0 (decode_group_fetch x)
  unfolding decode_group_fetch
  Safe-group_fetch = names_then _ λ group topic name. Safe-ensure 28 0 _ (
      Safe-get 8 28 _ (omega arith) λ generation. Safe-get 4 20 _ (omega arith) λ partition.
        Safe-get 8 16 _ (omega arith) λ offset. Safe-get 4 8 _ (omega arith) λ max_bytes.
          Safe-get 4 4 _ (omega arith) λ max_wait_ms. Safe-bind 0 _ _ (Safe-empty 0) λ _.
            Safe-bind 0 _ _
              (Safe-lift 0 _ (new_fetch_total topic partition offset max_bytes max_wait_ms))
              λ _. Safe-pure 0 _)

  Safe-describe_topic : Safe 0 (decode_describe_topic x)
  unfolding decode_describe_topic
  Safe-describe_topic =
      Safe-string_then _
        (λ topic.
          Safe-bind 0 _ _ (Safe-empty 0) λ _.
            Safe-bind 0 _ _ (Safe-lift 0 _ (validate_topic_total topic)) λ _. Safe-pure 0 topic)
        x.is_utf8

  Safe-partition_status : Safe 0 (decode_partition_status x)
  unfolding decode_partition_status
  Safe-partition_status =
      Safe-string_then _
        (λ topic. Safe-ensure 4 0 _ (
          Safe-get 4 4 _ (omega arith)
            λ partition. Safe-bind 0 _ _ (Safe-empty 0) λ _. Safe-pure 0 _))
        x.is_utf8

  Safe-as :
      {A : Type 0} (make : A → Request) (decoder : Reader A)
      → Safe 0 decoder
      → Safe 0 (as_request make decoder)
  Safe-as make decoder s = Safe-bind 0 _ _ s λ value. Safe-pure 0 (make value)

  Safe-bare : (request : Request) (opcode : ℕ) → Safe 0 (bare request opcode)
  Safe-bare request opcode = record { run = λ buffer h. bare_total buffer }
    where
      bare_total : (buffer : Bytes) → bare request opcode buffer ≢ panic
      bare_total [] e = cc
      bare_total (b ∷ rest) e = cc

  branch : (b : Bool) (m n : Reader Request) → Safe 0 m → Safe 0 n → Safe 0 (if b then m else n)
  branch b m n = Safe-if 0 b m n

  Safe-opcode : (opcode : ℕ) → Safe 0 (decode_opcode x opcode)
  unfolding decode_opcode
  Safe-opcode opcode = branch (opcode == Opcodes.produce) _ _ (Safe-as produce _ (Safe-produce x)) (
      branch (opcode == Opcodes.produce_batch) _ _ (Safe-as produce_batch _ (Safe-produce_batch x))
        (branch (opcode == Opcodes.fetch) _ _ (Safe-as fetch _ (Safe-fetch x)) (
          branch (opcode == Opcodes.join_group) _ _ (Safe-as join_group _ Safe-group_member) (
            branch (opcode == Opcodes.heartbeat) _ _ (Safe-as heartbeat _ Safe-group_generation) (
              branch (opcode == Opcodes.leave_group) _ _
                (Safe-as leave_group _ Safe-group_generation)
                (branch (opcode == Opcodes.commit_offset) _ _
                  (Safe-as commit_offset _ Safe-commit_offset)
                  (branch (opcode == Opcodes.fetch_committed_offset) _ _
                    (Safe-as fetch_committed_offset _ Safe-fetch_committed)
                    (branch (opcode == Opcodes.group_fetch) _ _
                      (Safe-as group_fetch _ Safe-group_fetch)
                      (branch (opcode == Opcodes.create_topic) _ _
                        (Safe-as create_topic _ (Safe-create_topic x))
                        (branch (opcode == Opcodes.list_topics) _ _ (Safe-bare list_topics opcode) (
                          branch (opcode == Opcodes.describe_topic) _ _
                            (Safe-as describe_topic _ Safe-describe_topic)
                            (branch (opcode == Opcodes.cluster_metadata) _ _
                              (Safe-bare cluster_metadata opcode)
                              (branch (opcode == Opcodes.promote_leader) _ _
                                (Safe-as promote_leader _ (Safe-promote_leader x))
                                (branch (opcode == Opcodes.apply_leadership) _ _
                                  (Safe-as apply_leadership _ (Safe-apply_leadership x))
                                  (branch (opcode == Opcodes.partition_status) _ _
                                    (Safe-as partition_status _ Safe-partition_status)
                                    (Safe-raise 0 (unknown_opcode opcode)))))))))))))))))

-- A frame is split off with no read past its end, and the decoder gets at least one byte.
abbrev Framed : Result (Option Bytes × Bytes) → Type 0
Framed (ok (some body, rest)) = 0 < length body
Framed (ok (none, rest)) = Unit
Framed (err error) = Unit
Framed panic = ⊥

take_frame_of_len-Framed :
    (buffer : Bytes) (len : ℕ)
    → frame_header_size ≤ length buffer
    → Framed (take_frame_of_len buffer len)
unfolding take_frame_of_len
take_frame_of_len-Framed buffer len h =
    ground (
      arith,
      length-drop frame_header_size buffer h,
      length-take len (drop frame_header_size buffer),
    )

take_frame-Framed : (buffer : Bytes) → Framed (take_frame buffer)
unfolding take_frame
take_frame-Framed buffer = elim (Bool-cases (ltb (length buffer) frame_header_size)) [
  | inl short ↦ rw short tt
  | inr long ↦ header (ground arith) (get_be_total 4 buffer (ground arith)) (rw long)
]
  where
    header :
        frame_header_size ≤ length buffer
        → (n : ℕ) × (rest : Bytes) × (get_be 4 buffer ≡ some (n, rest))
          × (length rest + 4 ≡ length buffer)
        → take_frame buffer ≡ (
            if false then ok (none, buffer) else elim (get_be 4 buffer) [
              | none ↦ panic
              | some (frame_len, _) ↦ take_frame_of_len buffer frame_len
            ])
        → Framed (take_frame buffer)
    header h (n, rest, e, l) q = subst Framed (sym q) (rw e (take_frame_of_len-Framed buffer n h))

-- A decoder that is safe on one byte and more does not panic behind the framing.
pub decode_frame_total :
    {A : Type 0} (decoder : Reader A)
    → Safe 1 decoder
    → (buffer : Bytes) → decode_frame decoder buffer ≢ panic
unfolding decode_frame
decode_frame_total {A} decoder s buffer = go (take_frame buffer) (take_frame-Framed buffer)
  where
    finish :
        (body rest : Bytes) (r : Result (A × Bytes))
        → decoder body ≡ r
        → r ≢ panic
        → decode_body decoder (some body, rest) ≢ panic
    finish body rest (ok (a, left)) e p = rw e (λ q. cc)
    finish body rest (err error) e p = rw e (λ q. cc)
    finish body rest panic e p = absurd (p refl)

    go : (r : Result (Option Bytes × Bytes)) → Framed r → bind r (decode_body decoder) ≢ panic
    go (ok (some body, rest)) h = finish body rest (decoder body) refl (s.run body h)
    go (ok (none, rest)) h = λ e. cc
    go (err error) h = λ e. cc
    go panic h = absurd h

-- Whatever bytes stand in the buffer, `decode_request` does not read past the end of a frame:
-- it returns a request, asks for more bytes, or reports an error.
pub decode_request_total : (x : Externals) (buffer : Bytes) → decode_request x buffer ≢ panic
unfolding decode_request decode_request_frame
decode_request_total x =
    decode_frame_total _ (Safe-get 1 1 _ (omega arith) λ opcode. Safe-opcode x opcode)

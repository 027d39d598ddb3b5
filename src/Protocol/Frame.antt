-- ===== src/Protocol/Frame.antt =====
-- `take_frame` of crates/protocol/src/lib.rs, whose text `decode_request` and `take_response_frame`
-- repeat: splits a length-prefixed frame off the front of a buffer.
use sevlamq.Prelude.{ℕ, ◌+◌, Option, none, some, ◌==◌, length, take, drop, ltb, if◌then◌else◌}
use sevlamq.Protocol.Types.{Bytes, max_frame_size, frame_header_size}
use sevlamq.Protocol.Result.{Result, ok, err, panic, invalid_frame, frame_too_large, bind}
use sevlamq.Protocol.Reader.{Reader, get_be}

unfoldable pub take_frame_of_len : Bytes → ℕ → Result (Option Bytes × Bytes)
take_frame_of_len buffer frame_len =
    if frame_len == 0
    then err invalid_frame
    else if ltb max_frame_size frame_len
    then err frame_too_large
    else if ltb (length buffer) (frame_header_size + frame_len)
    then ok (none, buffer)
    else let body = drop frame_header_size buffer in
      ok (some (take frame_len body), drop frame_len body)

-- `none` says that the buffer does not hold a whole frame yet.
unfoldable pub take_frame : Bytes → Result (Option Bytes × Bytes)
take_frame buffer =
    if ltb (length buffer) frame_header_size then ok (none, buffer) else elim (get_be 4 buffer) [
      | none ↦ panic
      | some (frame_len, _) ↦ take_frame_of_len buffer frame_len
    ]

abbrev pub decode_body : {A : Type 0} → Reader A → Option Bytes × Bytes → Result (Option A × Bytes)
decode_body decoder (none, rest) = ok (none, rest)
decode_body decoder (some body, rest) = bind (decoder body) λ (value, _). ok (some value, rest)

-- Takes a frame and runs a decoder on it. The buffer is left behind the frame; what the decoder
-- leaves of its own frame is dropped.
unfoldable pub decode_frame : {A : Type 0} → Reader A → Bytes → Result (Option A × Bytes)
decode_frame decoder buffer = bind (take_frame buffer) (decode_body decoder)

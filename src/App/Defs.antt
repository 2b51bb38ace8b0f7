-- ===== src/App/Defs.antt =====
-- `App` of src/rtp_rtcp/app.cc.
use qo_srtp.Common.{
  ℕ, ◌+◌, ◌-◌, ◌/◌, ◌%◌, not, Option, none, some, List, ltb, ◌==◌, if◌then◌else◌, drop, u16, u32,
}
use qo_srtp.ByteIo.{write_big_endian, read_big_endian}
use qo_srtp.DataBuffer.{DataBuffer, create, set_size, modify_at, write}
use qo_srtp.Nack.Header.{CommonHeader, create_header}

-- `content` is `data_`, a unique pointer.
pub record App : Type 0 where
  pub sender_ssrc : ℕ
  pub sub_type : ℕ
  pub name : ℕ
  pub content : Option DataBuffer

-- `none` is an error.
unfoldable pub set_sub_type : ℕ → App → Option App
set_sub_type sub_type self =
    if ltb 0x1f sub_type then none else some (record self { sub_type = sub_type })

-- A new buffer that is filled; `memory` is what its block held.
unfoldable pub filled_buffer : (ℕ → ℕ) → List ℕ → ℕ → DataBuffer
filled_buffer memory from size =
    let sized = (set_size (create memory size) size).1 in (modify_at sized 0 from size).1

-- `content` is `none` for a null pointer.
unfoldable pub set_data : (ℕ → ℕ) → Option (List ℕ) → ℕ → App → Option App
set_data memory none data_length self = none
set_data memory (some content) data_length self =
    if data_length == 0
    then none
    else if not (data_length % 4 == 0)
    then none
    else if ltb 262132 data_length
    then none
    else some (record self { content = some (filled_buffer memory content data_length) })

-- What `LoadPacket` does: it may read through a null pointer, it may fail, or it writes and gives
-- back a null pointer for its result, with the buffer and `*pos` afterwards.
pub data LoadedApp : Type 0 where
  null_data no_space : LoadedApp
  no_result : List ℕ → ℕ → LoadedApp

-- The data are copied if the pointer to them is null, which cannot be here any more.
unfoldable pub load_app : App → List ℕ → ℕ → ℕ → LoadedApp
load_app self packet pos max_length = elim self.content [
  | none ↦ null_data
  | some content ↦
      let block_length = u32 (4 + 8 + content.size) in
      let (headed, pos1) =
        create_header self.sub_type 204 (u16 ((block_length - 4) / 4)) packet pos in
      let sent = write headed pos1 (write_big_endian 4 self.sender_ssrc) in
      let named = write sent (pos1 + 4) (write_big_endian 4 self.name) in
      if ltb max_length (u32 (pos + block_length))
      then no_space
      else no_result named (pos1 + (8 + content.size))
]

-- `none` is an error. A payload is there, since it has at least 8 bytes.
unfoldable pub store_app : (ℕ → ℕ) → CommonHeader → Option App
store_app memory header =
    if not (header.packet_type == 204)
    then none
    else if ltb header.payload_size 8
    then none
    else if not (header.payload_size % 4 == 0)
    then none
    else elim header.payload [
      | none ↦ none
      | some payload ↦ some (record {
        sender_ssrc = read_big_endian 4 payload;
        sub_type = header.count_or_format;
        name = read_big_endian 4 (drop 4 payload);
        content = some (filled_buffer memory (drop 8 payload) (header.payload_size - 8));
      })
    ]

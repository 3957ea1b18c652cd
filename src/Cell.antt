-- ===== src/Cell.antt =====
-- src/tor/cell.rs: framing of cells. A buffer is the list of its bytes; a reader is the list of the
-- bytes that it will still give, and `read_exact` fails when they run out.
pub mod Bytes
pub mod Roundtrip
pub mod Partial
pub mod Reading
mod Tests
use rust_tor_proxy.Prelude.{
  ℕ, ◌+◌, ◌-◌, ◌*◌, ◌/◌, ◌%◌, Bool, true, false, ◌||◌, Option, none, some, List, [], ◌∷◌, ◌++◌,
  length, get_or, take, drop, replicate, ltb, leb, ◌==◌, if◌then◌else◌, Result, ok, err,
  invalid_data, unexpected_eof, ◌>>=◌, u16_mod,
}
use Bytes.{be16, be32, u16_of, u32_of}

abbrev pub cell_body_len : ℕ
cell_body_len = 509

abbrev pub circ_id_len_v2 : ℕ
circ_id_len_v2 = 2

abbrev pub circ_id_len_v4 : ℕ
circ_id_len_v4 = 4

abbrev pub cmd_versions : ℕ
cmd_versions = 7

unfoldable pub is_variable_length : ℕ → Bool
is_variable_length command = command == cmd_versions || leb 128 command

pub record Cell : Type 0 where
  pub circ_id : ℕ
  pub command : ℕ
  pub body : List ℕ

-- `Cell::new`
unfoldable pub new : ℕ → ℕ → List ℕ → Result Cell
new circ_id command body =
    if is_variable_length command
    then (if ltb 65535 (length body)
        then err (invalid_data "variable-length cell body too long")
        else ok (record { circ_id = circ_id; command = command; body = body }))
    else (if ltb cell_body_len (length body)
        then err (invalid_data "fixed-length cell body too long")
        else ok (record {
          circ_id = circ_id;
          command = command;
          body = body ++ replicate (cell_body_len - length body) 0;
        }))

unfoldable pub circ_id_bytes : ℕ → ℕ → List ℕ
circ_id_bytes width id = if width == circ_id_len_v2 then be16 (id % u16_mod) else be32 id

unfoldable pub length_bytes : Cell → List ℕ
length_bytes c = if is_variable_length c.command then be16 (length c.body % u16_mod) else []

-- `encode`
unfoldable pub encode : Cell → ℕ → List ℕ
encode c width = circ_id_bytes width c.circ_id ++ (c.command ∷ (length_bytes c ++ c.body))

-- The end of `try_parse`: the body, once its place is known.
unfoldable pub take_body : List ℕ → ℕ → ℕ → ℕ → ℕ → Result (Option (Cell × ℕ))
take_body buf circ_id command body_start body_len =
    if ltb (length buf) (body_start + body_len)
    then ok none
    else ok (
        some (
          record {
            circ_id = circ_id;
            command = command;
            body = take body_len (drop body_start buf);
          },
          body_start + body_len,
        ))

unfoldable pub parse_after_id : List ℕ → ℕ → ℕ → Result (Option (Cell × ℕ))
parse_after_id buf width circ_id =
    let header = width + 1 in
    let command = get_or buf width 0 in
    if is_variable_length command
    then (if ltb (length buf) (header + 2)
        then ok none
        else take_body buf circ_id command (header + 2)
            (u16_of (get_or buf header 0) (get_or buf (header + 1) 0)))
    else take_body buf circ_id command header cell_body_len

-- `try_parse`: `ok none` asks for more bytes.
unfoldable pub try_parse : List ℕ → ℕ → Result (Option (Cell × ℕ))
try_parse buf width =
    if ltb (length buf) (width + 1)
    then ok none
    else if width == circ_id_len_v2
    then parse_after_id buf width (u16_of (get_or buf 0 0) (get_or buf 1 0))
    else if width == circ_id_len_v4
    then parse_after_id buf width
        (u32_of (get_or buf 0 0) (get_or buf 1 0) (get_or buf 2 0) (get_or buf 3 0))
    else err (invalid_data "bad CircID width")

-- `read_exact`: the bytes read, and what the reader still has.
unfoldable pub read_exact : ℕ → List ℕ → Result (List ℕ × List ℕ)
read_exact n reader =
    if ltb (length reader) n then err unexpected_eof else ok (take n reader, drop n reader)

-- The rest of the cell after its header, appended to `buf`.
unfoldable pub read_rest : List ℕ → ℕ → List ℕ → Result (List ℕ × List ℕ)
read_rest buf command reader =
    if is_variable_length command
    then (do
      (len_bytes, after) ← read_exact 2 reader
      (body, left) ← read_exact (u16_of (get_or len_bytes 0 0) (get_or len_bytes 1 0)) after
      ok ((buf ++ len_bytes) ++ body, left))
    else (do (body, left) ← read_exact cell_body_len reader; ok (buf ++ body, left))

abbrev finish : List ℕ → Option (Cell × ℕ) → Result (Cell × List ℕ)
finish left none = err (invalid_data "short cell")
finish left (some (c, used)) = ok (c, left)

-- `read_from`
unfoldable pub read_from : List ℕ → ℕ → Result (Cell × List ℕ)
read_from reader width = do
  (header, after) ← read_exact (width + 1) reader
  (buf, left) ← read_rest header (get_or header width 0) after
  parsed ← try_parse buf width
  finish left parsed

-- `be_u16`
unfoldable pub be_u16 : List ℕ → ℕ → Result ℕ
be_u16 buf offset =
    if ltb (length buf) (offset + 2)
    then err (invalid_data "truncated u16")
    else ok (u16_of (get_or buf offset 0) (get_or buf (offset + 1) 0))

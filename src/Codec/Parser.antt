-- ===== src/Codec/Parser.antt =====
-- `AnnexBParser` of codec.rs: `push`, `finish`, `take_next_nal`, `accept_nal` and `flush_current`. An
-- error leaves the parser as it was changed up to it.
pub mod Take
pub mod Buffer
pub mod Bytes
pub mod Stuck
pub mod Rounds
pub mod Deliveries
pub mod Units
pub mod Fronts
pub mod Chunks
use emersia.Base.{
  ℕ, zero, suc, ◌+◌, ◌*◌, ◌^◌, ◌%◌, Bool, true, false, not, ◌&&◌, ◌||◌, Option, none, some, List,
  [], ◌∷◌, ◌++◌, length, take, drop, get_or, ltb, leb, if◌then◌else◌, Result, ok, err,
}
use emersia.Codec.{
  Codec, CodecError, no_start_code, truncated_nal, empty_nal, too_many_parameter_sets,
  max_parameter_set_bytes, NalUnit, AccessUnit, is_parameter_set, is_keyframe_nal, is_sei, is_vcl,
  is_aud, nal_type_of, header_len,
}
use emersia.Codec.StartCodes.{start_code_positions}
use emersia.Codec.BitReader.{starts_new_picture}

-- `set_bytes` is the field `parameter_sets`, and `pending_sets` is `pending_parameter_sets`.
pub record AnnexBParser : Type 0 where
  pub codec : Codec
  pub buffer : List ℕ
  pub set_bytes : List ℕ
  pub pending_sets : List ℕ
  pub collecting_sets : Bool
  pub current : List NalUnit
  pub current_has_vcl : Bool
  pub index : ℕ
  pub max_buffer : ℕ

abbrev pub new_parser : Codec → AnnexBParser
new_parser codec = record {
  codec = codec;
  buffer = [];
  set_bytes = [];
  pending_sets = [];
  collecting_sets = false;
  current = [];
  current_has_vcl = false;
  index = 0;
  max_buffer = 8 * 1024 * 1024;
}

abbrev pub joined_annexb : List NalUnit → List ℕ
joined_annexb [] = []
joined_annexb (n ∷ ns) = n.annexb ++ joined_annexb ns

abbrev pub any_keyframe : Codec → List NalUnit → Bool
any_keyframe codec [] = false
any_keyframe codec (n ∷ ns) = is_keyframe_nal codec n || any_keyframe codec ns

-- The access unit of the units so far; the index is 64 bits wide.
abbrev pub unit_of : AnnexBParser → AccessUnit
unit_of p = record {
  codec = p.codec;
  nals = p.current;
  annexb = joined_annexb p.current;
  keyframe = any_keyframe p.codec p.current;
  index = p.index;
}

abbrev pub is_empty : List NalUnit → Bool
is_empty [] = true
is_empty (n ∷ ns) = false

unfoldable pub flush_current : AnnexBParser → Option AccessUnit × AnnexBParser
flush_current p = if is_empty p.current then (none, p) else (
  some (unit_of p),
  record p { current = []; current_has_vcl = false; index = (p.index + 1) % 2 ^ 64 },
)

-- The body of a unit, between its start code and its end, as a unit with its bytes.
unfoldable pub nal_of : Codec → List ℕ → List ℕ → Result CodecError NalUnit
nal_of codec body annexb = elim (nal_type_of body codec) [
  | none ↦ err truncated_nal
  | some ty ↦
      if leb (length body) (header_len body codec)
      then err empty_nal
      else ok (record {
        nal_type = ty;
        header = (get_or body 0 0, get_or body (header_len body codec) 0);
        annexb = annexb;
      })
]

-- What the first start code of a buffer and the place where its unit ends come to.
pub data Cut : Type 0 where
  no_code waits : Cut
  cut : (start sc_len stop : ℕ) → Cut

unfoldable pub first_cut : Bool → List ℕ → List (ℕ × ℕ) → Cut
first_cut at_end buffer [] = no_code
first_cut at_end buffer ((start, sc_len) ∷ []) =
    if at_end then cut start sc_len (length buffer) else waits
first_cut at_end buffer ((start, sc_len) ∷ (next, _) ∷ rest) = cut start sc_len next

-- A unit that is not empty is taken out; an error leaves the buffer.
unfoldable pub take_cut : Codec → List ℕ → ℕ → ℕ → ℕ → Result CodecError (Option NalUnit) × List ℕ
take_cut codec buffer start sc_len stop =
    elim (nal_of codec (drop (start + sc_len) (take stop buffer)) (drop start (take stop buffer))) [
      | err e ↦ (err e, buffer)
      | ok nal ↦ (ok (some nal), drop stop buffer)
    ]

-- Empty units are dropped on the way, each with its start code: a round for each byte is enough.
unfoldable pub take_next : ℕ → Codec → Bool → List ℕ → Result CodecError (Option NalUnit) × List ℕ
take_next zero codec at_end buffer = (ok none, buffer)
take_next (suc rounds) codec at_end buffer =
    elim (first_cut at_end buffer (start_code_positions buffer)) [
      | no_code ↦
          if ltb max_parameter_set_bytes (length buffer)
          then (err no_start_code, buffer)
          else (ok none, buffer)
      | waits ↦ (ok none, buffer)
      | cut start sc_len stop ↦ elim (leb stop (start + sc_len)) [
        | true ↦ take_next rounds codec at_end (drop stop buffer)
        | false ↦ take_cut codec buffer start sc_len stop
      ]
    ]

unfoldable pub take_next_nal :
    Bool → AnnexBParser → Result CodecError (Option NalUnit) × AnnexBParser
take_next_nal at_end p =
    let taken = take_next (suc (length p.buffer)) p.codec at_end p.buffer in
    (taken.0, record p { buffer = taken.1 })

-- The unit begins a new picture, or what comes before one.
unfoldable pub begins : NalUnit → AnnexBParser → Bool
begins nal p =
    is_aud p.codec nal
    || ((p.current_has_vcl && (is_vcl p.codec nal && starts_new_picture p.codec nal))
        || (p.current_has_vcl && (is_parameter_set p.codec nal || is_sei p.codec nal)))

unfoldable pub after_aud : NalUnit → AnnexBParser → AnnexBParser
after_aud nal p =
    if is_aud p.codec nal then record p { pending_sets = []; collecting_sets = false } else p

-- A parameter set joins its group, or begins a new one.
unfoldable pub collected : NalUnit → AnnexBParser → AnnexBParser
collected nal p =
    if is_parameter_set p.codec nal
    then record p {
      pending_sets = (if p.collecting_sets then p.pending_sets else []) ++ nal.annexb;
      collecting_sets = true;
    }
    else p

-- Picture data closes the group.
unfoldable pub published : NalUnit → AnnexBParser → AnnexBParser
published nal p =
    if is_vcl p.codec nal
    then (if p.collecting_sets
        then record p {
          set_bytes = p.pending_sets;
          pending_sets = [];
          collecting_sets = false;
          current_has_vcl = true;
        }
        else record p { current_has_vcl = true })
    else p

abbrev pub added : NalUnit → AnnexBParser → AnnexBParser
added nal p = record p { current = p.current ++ (nal ∷ []) }

abbrev pub oversized : NalUnit → AnnexBParser → Bool
oversized nal p =
    is_parameter_set p.codec nal && ltb max_parameter_set_bytes (length p.pending_sets)

-- The access unit that ends before this unit, if it ends one.
unfoldable pub flush_before : NalUnit → AnnexBParser → Option AccessUnit × AnnexBParser
flush_before nal p = if begins nal p then flush_current p else (none, p)

unfoldable pub prepared : NalUnit → AnnexBParser → AnnexBParser
prepared nal p = collected nal (after_aud nal p)

-- The unit is added, unless its group of parameter sets is too long.
unfoldable pub conclude :
    NalUnit
    → Option AccessUnit
    → AnnexBParser
    → Result CodecError (Option AccessUnit) × AnnexBParser
conclude nal flushed p =
    if oversized nal p
    then (err (too_many_parameter_sets (length p.pending_sets)), p)
    else (ok flushed, added nal (published nal p))

unfoldable pub accept_nal :
    NalUnit → AnnexBParser → Result CodecError (Option AccessUnit) × AnnexBParser
accept_nal nal p =
    let flushed = flush_before nal p in conclude nal flushed.0 (prepared nal flushed.1)

abbrev pub with_unit : Option AccessUnit → List AccessUnit → List AccessUnit
with_unit none out = out
with_unit (some au) out = au ∷ out

-- The units that a result gives, behind one that came before.
abbrev pub behind :
    Option AccessUnit
    → Result CodecError (List AccessUnit) × AnnexBParser
    → Result CodecError (List AccessUnit) × AnnexBParser
behind first (ok out, p) = (ok (with_unit first out), p)
behind first (err e, p) = (err e, p)

-- Takes units for as long as one is complete. Each takes a byte at least.
unfoldable pub take_all_nals : ℕ → AnnexBParser → Result CodecError (List AccessUnit) × AnnexBParser
take_all_nals zero p = (ok [], p)
take_all_nals (suc rounds) p =
    let taken = take_next_nal false p in
    elim taken.0 [
      | err e ↦ (err e, taken.1)
      | ok found ↦ elim found [
        | none ↦ (ok [], taken.1)
        | some nal ↦
            let accepted = accept_nal nal taken.1 in
            elim accepted.0 [
              | err e ↦ (err e, accepted.1)
              | ok flushed ↦ behind flushed (take_all_nals rounds accepted.1)
            ]
      ]
    ]

-- `AnnexBParser::push`.
unfoldable pub push_bytes :
    List ℕ → AnnexBParser → Result CodecError (List AccessUnit) × AnnexBParser
push_bytes bytes p =
    let p' = record p { buffer = p.buffer ++ bytes } in
    if ltb p.max_buffer (length p'.buffer)
    then (err truncated_nal, p')
    else take_all_nals (suc (length p'.buffer)) p'

abbrev pub finish_with :
    Option AccessUnit → AnnexBParser → Result CodecError (List AccessUnit) × AnnexBParser
finish_with first p =
    let flushed = flush_current p in (ok (with_unit first (with_unit flushed.0 [])), flushed.1)

-- `AnnexBParser::finish`.
unfoldable pub finish_stream : AnnexBParser → Result CodecError (List AccessUnit) × AnnexBParser
finish_stream p =
    let taken = take_next_nal true p in
    elim taken.0 [
      | err e ↦ (err e, taken.1)
      | ok found ↦ elim found [
        | none ↦ finish_with none taken.1
        | some nal ↦
            let accepted = accept_nal nal taken.1 in
            elim accepted.0 [
              | err e ↦ (err e, accepted.1)
              | ok flushed ↦ finish_with flushed accepted.1
            ]
      ]
    ]

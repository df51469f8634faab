-- ===== src/Git/ReceivePack.antt =====
-- src/server/git/receive-pack.ts: moving a ref by the git protocol.
pub mod Statuses
pub mod Request
mod Tests
use gitflare.Prelude.{
  ℕ, zero, suc, ◌+◌, Bool, true, false, ◌||◌, ◌&&◌, not, Option, none, some, List, [], ◌∷◌, ◌++◌,
  codes, text_eq, starts_with, index_of, drop, includes, Text, if◌then◌else◌, ◌⊎◌, inl, inr,
}
use gitflare.Git.PktLine.{
  PktLine, payload, special, Result, ok, err, stuck, decode_pkt_lines, encode_pkt_line,
  encode_flush,
}
use gitflare.Git.Refs.{strip_newline, zero_sha, is_empty}
use gitflare.Git.Objects.{GitObject, build_packfile, concat, uint32}

pub record RefUpdate : Type 0 where
  pub ref : Text
  pub old_sha : Text
  pub new_sha : Text

pub record ReceivePackResult : Type 0 where
  pub ok : Bool
  pub error : Option Text

-- The variables of the loop in `parseReceivePackResponse`.
pub record Report : Type 0 where
  pub unpack_ok : Bool
  pub ref_error : Option Text
  pub saw_ref_status : Bool

abbrev pub refused : Text → ReceivePackResult
refused reason = record { ok = false; error = some reason }

-- "<ref> <reason>"
abbrev pub reason_behind : Text → Option ℕ → Text
reason_behind rest none = rest
reason_behind rest (some space) = drop (suc space) rest

abbrev pub reason_of : Text → Text
reason_of rest = reason_behind rest (index_of 32 rest)

-- The body of the loop: the reason of a return, or the variables after it.
abbrev pub read_status : Report → Text → Text ⊎ Report
read_status report text =
    if text_eq text (codes "unpack ok")
    then inr record {
      unpack_ok = true;
      ref_error = report.ref_error;
      saw_ref_status = report.saw_ref_status;
    }
    else if starts_with (codes "unpack ") text
    then inl (drop 7 text)
    else if starts_with (codes "ok ") text
    then inr
        record { unpack_ok = report.unpack_ok; ref_error = report.ref_error; saw_ref_status = true }
    else if starts_with (codes "ng ") text
    then inr record {
      unpack_ok = report.unpack_ok;
      ref_error = some (reason_of (drop 3 text));
      saw_ref_status = true;
    }
    else inr report

-- `if (refError)`: a reason that is undefined or empty counts as none.
abbrev pub conclude_without_error : Report → ReceivePackResult
conclude_without_error report =
    if not report.unpack_ok || not report.saw_ref_status
    then refused (codes "Server did not confirm the ref update")
    else record { ok = true; error = none }

abbrev pub conclude : Report → Option Text → ReceivePackResult
conclude report none = conclude_without_error report
conclude report (some []) = conclude_without_error report
conclude report (some (c ∷ reason)) = refused (c ∷ reason)

unfoldable pub read_report : Report → List PktLine → ReceivePackResult
unfolding strip_newline
read_report report [] = conclude report report.ref_error
read_report report (special code ∷ lines) = read_report report lines
read_report report (payload bytes ∷ lines) = elim (read_status report (strip_newline bytes)) [
  | inl reason ↦ refused reason
  | inr next ↦ read_report next lines
]

abbrev pub no_report : Report
no_report = record { unpack_ok = false; ref_error = none; saw_ref_status = false }

-- Malformed framing throws.
abbrev pub parse_receive_pack_response : Text → Result ReceivePackResult
parse_receive_pack_response body = elim (decode_pkt_lines body) [
  | ok lines ↦ ok (read_report no_report lines)
  | err e ↦ err e
  | stuck ↦ stuck
]

abbrev pub can_fast_forward : Text → Text → List Text → Bool
can_fast_forward base_sha head_sha head_ancestry =
    if text_eq base_sha head_sha
    then false
    else if text_eq base_sha zero_sha
    then true
    else includes head_ancestry base_sha

abbrev pub command : RefUpdate → Text
command update =
    update.old_sha
    ++ codes " "
    ++ update.new_sha
    ++ codes " "
    ++ update.ref
    ++ 0 ∷ []
    ++ codes "report-status\n"

module _ (sha1 : Text → Text) where
  -- The digest's 20 bytes fill the array behind the header's 12.
  abbrev pub empty_packfile : Text
  empty_packfile = let header = codes "PACK" ++ uint32 2 ++ uint32 0 in header ++ sha1 header

module _ (utf8 sha1 deflate : Text → Text) where
  -- `none` is the exception for a command that is too long.
  abbrev pub build_receive_pack_request : RefUpdate → List GitObject → Option Text
  build_receive_pack_request update objects =
      let pack =
        if is_empty objects then empty_packfile sha1 else build_packfile sha1 deflate objects in
      elim (encode_pkt_line (utf8 (command update))) [
        | none ↦ none
        | some line ↦ some (concat (line ∷ encode_flush ∷ pack ∷ []))
      ]

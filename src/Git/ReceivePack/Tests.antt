-- ===== src/Git/ReceivePack/Tests.antt =====
-- Runs of the push code, and its theorems at concrete requests and reports.
use gitflare.Prelude.{◌≡◌, ◌↔◌, refl, true, some, List, [], ◌∷◌, Text, codes, replicate, arith}
use gitflare.Git.PktLine.{PktLine, payload, special, ok, encode_pkt_line}
use gitflare.Git.PktLine.RoundTrip.{encode_packets, decode_pkt_lines-encode_packets}
use gitflare.Git.Objects.{build_packfile}
use gitflare.Git.ReceivePack.{
  RefUpdate, ReceivePackResult, build_receive_pack_request, command, parse_receive_pack_response,
  read_report, no_report,
}
use gitflare.Git.ReceivePack.Request.{IsRequest, build_receive_pack_request-IsRequest}
use gitflare.Git.ReceivePack.Statuses.{IsAccepted, parse_receive_pack_response_iff, texts}

abbrev update : RefUpdate
update = record {
  ref = codes "refs/heads/main";
  old_sha = replicate 40 97;
  new_sha = replicate 40 98;
}

abbrev report : List PktLine
report = payload (codes "unpack ok\n") ∷ payload (codes "ok refs/heads/main\n") ∷ special 0 ∷ []

abbrev report_bytes : Text
report_bytes = codes "000eunpack ok\n0017ok refs/heads/main\n0000"

reported : encode_packets report ≡ some report_bytes
unfolding encode_pkt_line
reported = refl

parse_receive_pack_response_iff_example :
    (result : ReceivePackResult) × (parse_receive_pack_response report_bytes ≡ ok result)
    × ((result.ok ≡ true) ↔ IsAccepted (texts report))
parse_receive_pack_response_iff_example =
    parse_receive_pack_response_iff report_bytes report
      (decode_pkt_lines-encode_packets report report_bytes reported)

-- A refusal without a reason counts as a success.
refused_without_reason :
    (read_report no_report
      (payload (codes "unpack ok") ∷ payload (codes "ng refs/heads/main ") ∷ [])).ok
    ≡ true
unfolding read_report
refused_without_reason = refl

build_receive_pack_request-IsRequest_example :
    (body : Text) × (build_receive_pack_request (λ t. t) (λ t. t) (λ t. t) update [] ≡ some body)
    × IsRequest body (command update) (build_packfile (λ t. t) (λ t. t) [])
build_receive_pack_request-IsRequest_example =
    build_receive_pack_request-IsRequest (λ t. t) (λ t. t) (λ t. t) update [] (omega arith)

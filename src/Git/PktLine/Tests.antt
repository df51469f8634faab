-- ===== src/Git/PktLine/Tests.antt =====
-- Runs of the pkt-line code, and its theorems at concrete streams.
use gitflare.Prelude.{◌≡◌, ◌≢◌, refl, some, [], ◌∷◌, length, codes, List}
use gitflare.Git.PktLine.{
  PktLine, payload, special, truncated_prefix, overruns, below_header, invalid_prefix, ok, err,
  stuck, decode_pkt_lines, encode_pkt_line,
}
use gitflare.Git.PktLine.Decoding.{decode_pkt_lines-ne-stuck, decode_pkt_lines_covers, total_size}
use gitflare.Git.PktLine.RoundTrip.{encode_packets, decode_pkt_lines-encode_packets}

abbrev lines : List PktLine
lines = payload (codes "a\n") ∷ special 0 ∷ payload (codes "hello") ∷ special 1 ∷ []

errors :
    (decode_pkt_lines (codes "000") ≡ err (truncated_prefix 0))
    × (decode_pkt_lines (codes "0000xyz1") ≡ err (invalid_prefix 4))
    × (decode_pkt_lines (codes "0003") ≡ err (below_header 3 0))
    × (decode_pkt_lines (codes "0009abc") ≡ err (overruns 5))
unfolding decode_pkt_lines
errors = (refl, refl, refl, refl)

framed : encode_packets lines ≡ some (codes "0006a\n00000009hello0001")
unfolding encode_pkt_line
framed = refl

decode_pkt_lines-ne-stuck_example : decode_pkt_lines (codes "0006a\n0") ≢ stuck
decode_pkt_lines-ne-stuck_example = decode_pkt_lines-ne-stuck (codes "0006a\n0")

decode_pkt_lines_covers_example : total_size lines ≡ length (codes "0006a\n00000009hello0001")
decode_pkt_lines_covers_example =
    decode_pkt_lines_covers (codes "0006a\n00000009hello0001") lines
      (decode_pkt_lines-encode_packets lines (codes "0006a\n00000009hello0001") framed)

decode_pkt_lines-encode_packets_example :
    decode_pkt_lines (codes "0006a\n00000009hello0001") ≡ ok lines
decode_pkt_lines-encode_packets_example =
    decode_pkt_lines-encode_packets lines (codes "0006a\n00000009hello0001") framed

-- ===== src/Git/ReceivePack/Request.antt =====
-- What a server finds in a push request.
use gitflare.Prelude.{
  ◌≡◌, refl, ap, sym, ◌∙◌, Option, none, some, List, [], ◌∷◌, ◌++◌, Text, ◌≤◌, length,
  if◌then◌else◌, append-nil, append_assoc, codes, ◌≢◌,
}
use gitflare.Git.PktLine.{payload, special, ok, encode_pkt_line, encode_flush, decode_pkt_lines}
use gitflare.Git.PktLine.RoundTrip.{
  encode_packets, decode_pkt_lines-encode_packets, encode_pkt_line_iff,
}
use gitflare.Git.Refs.{is_empty}
use gitflare.Git.Objects.{GitObject, build_packfile, uint32}
use gitflare.Git.ReceivePack.{RefUpdate, empty_packfile, command, build_receive_pack_request}

-- A request in two parts: the commands as packets, and the pack.
pub record IsRequest (body : Text) (text : Text) (pack : Text) : Type 0 where
  pub commands : Text
  pub split : body ≡ commands ++ pack
  pub decoded : decode_pkt_lines commands ≡ ok (payload text ∷ special 0 ∷ [])

abbrev empty_header : Text
empty_header = codes "PACK" ++ uint32 2 ++ uint32 0

-- The constant for no objects is the packfile of no objects.
request_pack :
    (sha1 deflate : Text → Text) (objects : List GitObject)
    → (if is_empty objects then empty_packfile sha1 else build_packfile sha1 deflate objects)
      ≡ build_packfile sha1 deflate objects
request_pack sha1 deflate [] = ap (λ t. empty_header ++ t) (sym (append-nil (sha1 empty_header)))
request_pack sha1 deflate (o ∷ os) = refl

is_framed : (line : Option Text) → line ≢ none → (l : Text) × (line ≡ some l)
is_framed none h = absurd (h refl)
is_framed (some l) h = (l, refl)

framed-IsRequest :
    (utf8 sha1 deflate : Text → Text) (update : RefUpdate) (objects : List GitObject) (line : Text)
    → encode_pkt_line (utf8 (command update)) ≡ some line
    → (body : Text) × (build_receive_pack_request utf8 sha1 deflate update objects ≡ some body)
      × IsRequest body (utf8 (command update)) (build_packfile sha1 deflate objects)
framed-IsRequest utf8 sha1 deflate update objects line e =
    let text = utf8 (command update) in
    let pack = build_packfile sha1 deflate objects in
    (
      line ++ encode_flush ++ pack,
      rw (e, build_receive_pack_request, request_pack sha1 deflate objects)
          (ap (λ t. some (line ++ (encode_flush ++ t))) (append-nil pack)
            ∙ ap some (sym (append_assoc line encode_flush pack))),
      record {
        commands = line ++ encode_flush;
        split = refl;
        decoded =
            decode_pkt_lines-encode_packets (payload text ∷ special 0 ∷ []) (line ++ encode_flush)
              (rw (e, encode_packets) refl);
      },
    )

-- A push request is made when its command has at most 65531 bytes. It starts with packets that
-- decode to the command and a flush, and behind them stands the packfile of the objects, also when
-- there are none.
pub build_receive_pack_request-IsRequest :
    (utf8 sha1 deflate : Text → Text) (update : RefUpdate) (objects : List GitObject)
    → length (utf8 (command update)) ≤ 65531
    → (body : Text) × (build_receive_pack_request utf8 sha1 deflate update objects ≡ some body)
      × IsRequest body (utf8 (command update)) (build_packfile sha1 deflate objects)
build_receive_pack_request-IsRequest utf8 sha1 deflate update objects h =
    let text = utf8 (command update) in
    let (line, e) = is_framed (encode_pkt_line text) ((encode_pkt_line_iff text).1 h) in
    framed-IsRequest utf8 sha1 deflate update objects line e

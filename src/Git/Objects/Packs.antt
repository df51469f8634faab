-- ===== src/Git/Objects/Packs.antt =====
-- A packfile read as the pack format describes it: the trailer is the digest of all before it, and
-- each object is a header and a compressed content. `inflate` reads one compressed stream.
use gitflare.Prelude.{
  ℕ, zero, suc, ◌+◌, ◌-◌, ◌*◌, ◌^◌, ◌<◌, ◌≡◌, refl, ap, ◌∙◌, true, Option, none, some, List, [],
  ◌∷◌, ◌++◌, ◌==◌, Text, if◌then◌else◌, arith, ==_iff, codes, text_eq, text_eq_refl, length,
  length-append, take, drop, take-append, drop-append, All, append-nil, map,
}
use gitflare.Git.Objects.{type_code, concat, GitObject, object_parts, build_packfile, uint32}
use gitflare.Git.Objects.Headers.{read_object_header, read_object_header-encode_object_header}

-- What a packfile says of an object: its type's code and its content.
abbrev pub Packed : Type 0
Packed = ℕ × Text

add_packed : Packed → Option (List Packed) → Option (List Packed)
add_packed p none = none
add_packed p (some ps) = some (p ∷ ps)

abbrev pub packed : GitObject → Packed
packed object = (type_code object.object_type, object.content)

read_count : Text → Option (ℕ × Text)
read_count [] = none
read_count (a ∷ []) = none
read_count (a ∷ b ∷ []) = none
read_count (a ∷ b ∷ c ∷ []) = none
read_count (a ∷ b ∷ c ∷ d ∷ rest) = some (((a * 256 + b) * 256 + c) * 256 + d, rest)

abbrev pub magic : Text
magic = codes "PACK" ++ uint32 2

module _ (inflate : Text → Option (Text × Text)) where
  read_content : (Text → Option (List Packed)) → ℕ → ℕ → Option (Text × Text) → Option (List Packed)
  unfolding add_packed
  read_content next code size none = none
  read_content next code size (some (content, rest)) =
      if length content == size then add_packed (code, content) (next rest) else none

  read_object : (Text → Option (List Packed)) → Option (ℕ × ℕ × Text) → Option (List Packed)
  unfolding read_content
  read_object next none = none
  read_object next (some (code, size, rest)) = read_content next code size (inflate rest)

  read_objects : ℕ → Text → Option (List Packed)
  unfolding read_object
  read_objects zero [] = some []
  read_objects zero (b ∷ bytes) = none
  read_objects (suc n) bytes = read_object (read_objects n) (read_object_header bytes)

  read_counted : Option (ℕ × Text) → Option (List Packed)
  unfolding read_objects
  read_counted none = none
  read_counted (some (n, rest)) = read_objects n rest

  unfoldable pub read_pack : (Text → Text) → Text → Option (List Packed)
  unfolding read_counted read_count
  read_pack sha1 bytes =
      let size = length bytes - 20 in
      let body = take size bytes in
      if text_eq (sha1 body) (drop size bytes)
      then (if text_eq (take 8 body) magic then read_counted (read_count (drop 8 body)) else none)
      else none

  read_count-uint32 :
      (n : ℕ) (rest : Text) → n < 2 ^ 32 → read_count (uint32 n ++ rest) ≡ some (n, rest)
  unfolding read_count
  read_count-uint32 n rest h = ap (λ k. some (k, rest)) (omega arith)

  read_pack-body :
      (sha1 : Text → Text) (parts : Text)
      → length (sha1 (magic ++ parts)) ≡ 20
      → read_pack sha1 ((magic ++ parts) ++ sha1 (magic ++ parts)) ≡ read_counted (read_count parts)
  unfolding read_pack
  read_pack-body sha1 parts digest =
      let body = magic ++ parts in
      let size : length (body ++ sha1 body) - 20 ≡ length body =
        omega (arith, length-append body (sha1 body), digest) in
      let same = text_eq_refl (sha1 body) in
      rw (size, take-append body (sha1 body), drop-append body (sha1 body), same)
        (ap (λ t. read_counted (read_count t)) (take-append parts (sha1 body)))

  module _ (deflate : Text → Text)
      (inflate-deflate : (s rest : Text) → inflate (deflate s ++ rest) ≡ some (s, rest)) where
    read_objects-object_parts :
        (objects : List GitObject)
        → All (λ o. length o.content < 2 ^ 31) objects
        → read_objects (length objects) (concat (object_parts deflate objects))
          ≡ some (map packed objects)
    unfolding read_objects read_object read_content add_packed
    read_objects-object_parts [] a = refl
    read_objects-object_parts (o ∷ os) (h, a) =
        let rest = concat (object_parts deflate os) in
        let same : (length o.content == length o.content) ≡ true = (==_iff _ _).1 refl in
        rw
          (
            read_object_header-encode_object_header o.object_type (length o.content)
                (deflate o.content ++ rest) h,
            inflate-deflate o.content rest,
            same,
          )
          (ap (add_packed (packed o)) (read_objects-object_parts os a))

    -- Reading a packfile that `buildPackfile` made gives back the type and the content of each
    -- object, in order, when `inflate` undoes `deflate`, a digest has 20 bytes, no content has
    -- 2 ^ 31 bytes or more and there are fewer than 2 ^ 32 objects.
    pub read_pack-build_packfile :
        (sha1 : Text → Text) (objects : List GitObject)
        → ((s : Text) → length (sha1 s) ≡ 20)
        → length objects < 2 ^ 32
        → All (λ o. length o.content < 2 ^ 31) objects
        → read_pack sha1 (build_packfile sha1 deflate objects) ≡ some (map packed objects)
    unfolding read_pack read_counted
    read_pack-build_packfile sha1 objects digest few a =
        let parts = concat (object_parts deflate objects) in
        let body = magic ++ uint32 (length objects) ++ parts in
        ap (λ t. read_pack sha1 (body ++ t)) (append-nil (sha1 body))
        ∙ read_pack-body sha1 (uint32 (length objects) ++ parts)
            (digest (magic ++ (uint32 (length objects) ++ parts)))
        ∙ ap read_counted (read_count-uint32 (length objects) parts few)
        ∙ read_objects-object_parts objects a

-- ===== src/Console/HttpApp/Body.antt =====
-- console/src/http-app.ts, `readJsonBody`, against the body taken as a whole.
use agent_runtime_mcp.Base.{
  ℕ, ◌+◌, ◌≤◌, true, false, Option, List, [], ◌∷◌, ◌++◌, ◌≡◌, refl, ◌∙◌, ap, subst, sym, length,
  length-append, ltb, arith, Bool-cases, inl, inr, if-elim, if◌then◌else◌,
}
use mathlib.Core.List.{append_assoc, append-nil}
use agent_runtime_mcp.Console.HttpApp.{
  Reading, body_refused, parse_body, max_body_bytes, take_chunk, read_chunks, start_reading,
  read_json_body,
}
use agent_runtime_mcp.Console.Json.{Json}

abbrev pub concat : List (List ℕ) → List ℕ
concat [] = []
concat (chunk ∷ chunks) = chunk ++ concat chunks

-- What a reading knows: it is too large exactly when its size is, and keeps no more than fits.
record IsReading (r : Reading) : Type 0 where
  large_eq : r.too_large ≡ ltb max_body_bytes r.size
  kept_le : length r.kept ≤ max_body_bytes
  kept_eq : r.too_large ≡ false → length r.kept ≡ r.size

take_chunk_large :
    (chunk : List ℕ) (r : Reading)
    → ltb max_body_bytes (r.size + length chunk) ≡ true
    → take_chunk chunk r ≡ record { size = r.size + length chunk; too_large = true; kept = r.kept }
take_chunk_large chunk r e = rw e refl

take_chunk_fits :
    (chunk : List ℕ) (r : Reading)
    → ltb max_body_bytes (r.size + length chunk) ≡ false
    → r.too_large ≡ false
    → take_chunk chunk r
      ≡ record { size = r.size + length chunk; too_large = false; kept = r.kept ++ chunk }
take_chunk_fits chunk r e t = rw (e, t) refl

-- A size that fits now did before.
fits-before :
    (chunk : List ℕ) (r : Reading)
    → IsReading r
    → ltb max_body_bytes (r.size + length chunk) ≡ false
    → r.too_large ≡ false
fits-before chunk r i e = i.large_eq ∙ ground (arith, e)

take_chunk-IsReading : (chunk : List ℕ) (r : Reading) → IsReading r → IsReading (take_chunk chunk r)
take_chunk-IsReading chunk r i = elim (Bool-cases (ltb max_body_bytes (r.size + length chunk))) [
  | inl e ↦
      rw (take_chunk_large chunk r e)
        (record { large_eq = rw e refl; kept_le = i.kept_le; kept_eq = λ no. absurd (cc no) })
  | inr e ↦
      let before = fits-before chunk r i e in
      let counted = length-append r.kept chunk ∙ ap (λ n. n + length chunk) (i.kept_eq before) in
      rw (take_chunk_fits chunk r e before) (record {
        large_eq = rw e refl;
        kept_le = ground (arith, counted, e);
        kept_eq = λ _. counted;
      })
]

read_chunks-IsReading :
    (chunks : List (List ℕ)) (r : Reading) → IsReading r → IsReading (read_chunks chunks r)
unfolding read_chunks
read_chunks-IsReading [] r i = i
read_chunks-IsReading (chunk ∷ chunks) r i =
    read_chunks-IsReading chunks (take_chunk chunk r) (take_chunk-IsReading chunk r i)

take_chunk-size : (chunk : List ℕ) (r : Reading) → (take_chunk chunk r).size ≡ r.size + length chunk
take_chunk-size chunk r =
    if-elim (λ (r' : Reading). r'.size ≡ r.size + length chunk)
      (ltb max_body_bytes (r.size + length chunk)) _ _ (λ _. refl)
      (λ _.
        if-elim (λ (r' : Reading). r'.size ≡ r.size + length chunk) r.too_large _ _ (λ _. refl)
          (λ _. refl))

read_chunks-size :
    (chunks : List (List ℕ)) (r : Reading)
    → (read_chunks chunks r).size ≡ r.size + length (concat chunks)
unfolding read_chunks
read_chunks-size [] r = omega arith
read_chunks-size (chunk ∷ chunks) r = omega (
  arith,
  read_chunks-size chunks (take_chunk chunk r),
  take_chunk-size chunk r,
  length-append chunk (concat chunks),
)

read_chunks-kept :
    (chunks : List (List ℕ)) (r : Reading)
    → IsReading r
    → ltb max_body_bytes (r.size + length (concat chunks)) ≡ false
    → (read_chunks chunks r).kept ≡ r.kept ++ concat chunks
unfolding read_chunks
read_chunks-kept [] r i h = sym (append-nil r.kept)
read_chunks-kept (chunk ∷ chunks) r i h =
    let fits : ltb max_body_bytes (r.size + length chunk) ≡ false =
      ground (arith, h, length-append chunk (concat chunks)) in
    let r' : Reading = record {
      size = r.size + length chunk;
      too_large = false;
      kept = r.kept ++ chunk;
    } in
    let same = take_chunk_fits chunk r fits (fits-before chunk r i fits) in
    ap (λ (q : Reading). (read_chunks chunks q).kept) same
    ∙ read_chunks-kept chunks r' (subst IsReading same (take_chunk-IsReading chunk r i))
        (ground (arith, h, length-append chunk (concat chunks)))
    ∙ append_assoc r.kept chunk (concat chunks)

start_reading-IsReading : IsReading start_reading
start_reading-IsReading = record { large_eq = refl; kept_le = omega arith; kept_eq = λ _. refl }

-- Reading the chunks one by one gives what the parser gives for all of them together, or a refusal
-- with status 413 where they are larger than the limit; and no more than the limit is ever kept.
pub read_json_body_eq :
    (parse : List ℕ → Option Json) (chunks : List (List ℕ))
    → (read_json_body parse chunks ≡ (
        if ltb max_body_bytes (length (concat chunks))
        then body_refused 413
        else parse_body parse (concat chunks)))
      × (length (read_chunks chunks start_reading).kept ≤ max_body_bytes)
unfolding read_json_body
read_json_body_eq parse chunks =
    let r = read_chunks-IsReading chunks start_reading start_reading-IsReading in
    let size : (read_chunks chunks start_reading).size ≡ length (concat chunks) =
      omega (arith, read_chunks-size chunks start_reading) in
    let large : (read_chunks chunks start_reading).too_large
        ≡ ltb max_body_bytes (length (concat chunks)) =
      r.large_eq ∙ ap (ltb max_body_bytes) size in
    (
      rw large (elim (Bool-cases (ltb max_body_bytes (length (concat chunks)))) [
        | inl e ↦ rw e refl
        | inr e ↦
            rw
              (e, read_chunks-kept chunks start_reading start_reading-IsReading (ground (arith, e)))
              refl
      ]),
      r.kept_le,
    )

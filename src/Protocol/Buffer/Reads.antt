-- ===== src/Protocol/Buffer/Reads.antt =====
-- pkg/protocol/buffer.go, the reads: what the read of given bytes at a given place gives.
use moreno_go_moreno_core.Common.{
  ℕ, subst, suc, ◌+◌, ◌<◌, ◌≡◌, ap, ◌∙◌, List, [], ◌∷◌, ◌++◌, arith, length, length-append,
  take-append, drop-append, append_assoc, le→ltb, lt→leb, All, ◌≢◌, ne→==, append-nil,
}
use moreno_go_moreno_core.Protocol.Buffer.{
  Buffer, done, M, ◌>>=◌, pure, pos, int_limit, from_le, read, read_word, read_cstring, len,
  scan_cstring,
}

-- A buffer in which `pre` is read already and `rest` is to come.
abbrev pub at : List ℕ → List ℕ → Buffer
at pre rest = record { bytes = pre ++ rest; pos = length pre }

-- Where `enc` is next, the reader `m` takes exactly `enc` and gives `v`.
abbrev pub Reads {ℓ} : {A : Type ℓ} → M A → List ℕ → A → Type ℓ
Reads m enc v =
    (pre post : List ℕ)
    → length pre + length enc + length post < int_limit
    → m (at pre (enc ++ post)) ≡ done v (at (pre ++ enc) post)

pub read-Reads : (xs : List ℕ) → Reads (read (pos (length xs))) xs xs
unfolding read
read-Reads xs pre post h = rw (
  lt→leb int_limit (length pre + length xs) (omega arith),
  le→ltb (length (pre ++ (xs ++ post))) (length pre + length xs)
      (omega (arith, length-append pre (xs ++ post), length-append xs post)),
  drop-append pre (xs ++ post),
  take-append xs post,
  append_assoc pre xs post,
  length-append pre xs,
)

pub pure-Reads {ℓ} : {A : Type ℓ} (a : A) → Reads (pure a) [] a
pure-Reads a pre post h = rw append-nil

pub >>=-Reads {ℓ κ} :
    {A : Type ℓ} {B : Type κ} (m : M A) (f : A → M B) (xs ys : List ℕ) (a : A) (b : B)
    → Reads m xs a
    → Reads (f a) ys b
    → Reads (m >>= f) (xs ++ ys) b
>>=-Reads m f xs ys a b hm hf pre post h = rw (
  append_assoc xs ys post,
  hm pre (ys ++ post) (omega (arith, length-append xs ys, length-append ys post)),
  ◌>>=◌,
  hf (pre ++ xs) post (omega (arith, length-append xs ys, length-append pre xs)),
  append_assoc pre xs ys,
)

-- The last read, and a value made of it.
pub last-Reads {ℓ κ} :
    {A : Type ℓ} {B : Type κ} (m : M A) (g : A → B) (xs : List ℕ) (a : A)
    → Reads m xs a
    → Reads (m >>= λ x. pure (g x)) xs (g a)
last-Reads m g xs a r pre post h = rw (r pre post h, ◌>>=◌)

-- From the start of a packet that holds nothing else.
pub Reads-packet {ℓ} :
    {A : Type ℓ} (m : M A) (enc : List ℕ) (v : A)
    → Reads m enc v
    → length enc < int_limit
    → m (record { bytes = enc; pos = 0 }) ≡ done v (record { bytes = enc; pos = length enc })
Reads-packet m enc v r h =
    subst (λ (e : List ℕ). m (record { bytes = e; pos = 0 }) ≡ done v (at enc [])) (append-nil enc)
      (r [] [] (omega arith))
    ∙ ap (λ (e : List ℕ). done v (record { bytes = e; pos = length enc })) (append-nil enc)

-- A word of `length xs` bytes.
pub read_word-Reads : (xs : List ℕ) → Reads (read_word (length xs)) xs (from_le xs)
unfolding read_word
read_word-Reads xs pre post h = rw (read-Reads xs pre post h, ◌>>=◌)

-- No byte of a text is 0.
abbrev pub NoZero : List ℕ → Type 0
NoZero s = All (λ c. c ≢ 0) s

scan-Reads :
    (s acc post : List ℕ) (b : Buffer) (i : ℕ)
    → NoZero s
    → scan_cstring acc (s ++ 0 ∷ post) b i ≡ done (acc ++ s) (record b { pos = suc (i + length s) })
unfolding scan_cstring
scan-Reads [] acc post b i h = ground (arith, append-nil acc)
scan-Reads (c ∷ s) acc post b i h =
    rw (ne→== c 0 h.0, scan-Reads s (acc ++ c ∷ []) post b (suc i) h.1, append_assoc acc (c ∷ []) s)
      (ground arith)

pub read_cstring-Reads : (s : List ℕ) → NoZero s → Reads read_cstring (s ++ 0 ∷ []) s
unfolding read_cstring
read_cstring-Reads s nz pre post h =
    rw
      (
        append_assoc s (0 ∷ []) post,
        drop-append pre (s ++ 0 ∷ post),
        scan-Reads s [] post (at pre (s ++ 0 ∷ post)) (length pre) nz,
        append_assoc pre (s ++ 0 ∷ []) post,
        append_assoc s (0 ∷ []) post,
      )
      (ground (arith, length-append pre (s ++ 0 ∷ []), length-append s (0 ∷ [])))

-- The bytes of `w` and then `post`, to be read from the position `p` on.
abbrev pub placed : Buffer → List ℕ → ℕ → Buffer
placed w post p = record { bytes = w.bytes ++ post; pos = p }

-- What was written to the end of `b` is read back from there.
pub Reads-after {ℓ} :
    {A : Type ℓ} (m : M A) (enc : List ℕ) (v : A) (b : Buffer) (post : List ℕ) (n : ℕ)
    → Reads m enc v
    → length enc ≡ n
    → len b + n + length post < int_limit
    → m (placed (record b { bytes = b.bytes ++ enc }) post (len b))
      ≡ done v (placed (record b { bytes = b.bytes ++ enc }) post (len b + n))
Reads-after m enc v b post n r e h = rw (append_assoc b.bytes enc post) (
    r b.bytes post (omega arith)
    ∙ ap (done v) (λ i. record {
      bytes = append_assoc b.bytes enc post i;
      pos =
          (let q : length (b.bytes ++ enc) ≡ len b + n = omega (arith, length-append b.bytes enc) in
              q)
            i;
    }))

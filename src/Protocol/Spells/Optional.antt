-- ===== src/Protocol/Spells/Optional.antt =====
-- pkg/protocol/spells.go: fields that a packet has only under a test.
use moreno_go_moreno_core.Common.{
  ℕ, ◌≡◌, sym, ap, Bool, true, false, List, [], ◌++◌, if◌then◌else◌, append_assoc, append-nil,
}
use moreno_go_moreno_core.Protocol.Buffer.{Buffer, M}
use moreno_go_moreno_core.Protocol.Buffer.Reads.{Reads, pure-Reads}
use moreno_go_moreno_core.Protocol.Spells.{read_if, write_if}

-- A write that adds the bytes of `enc`.
abbrev pub Appends : (Buffer → Buffer) → List ℕ → Type 0
Appends w enc = (b : Buffer) → w b ≡ record b { bytes = b.bytes ++ enc }

pub then-Appends :
    (v w : Buffer → Buffer) (xs ys : List ℕ)
    → Appends v xs
    → Appends w ys
    → Appends (λ b. w (v b)) (xs ++ ys)
then-Appends v w xs ys h k b =
    rw (h b, k (record b { bytes = b.bytes ++ xs }), append_assoc b.bytes xs ys)

unfoldable pub if_bytes : Bool → List ℕ → List ℕ
if_bytes c enc = if c then enc else []

pub write_if-Appends :
    (c : Bool) (w : Buffer → Buffer) (enc : List ℕ)
    → Appends w enc
    → Appends (write_if c w) (if_bytes c enc)
unfolding if_bytes
write_if-Appends true w enc h b = h b
write_if-Appends false w enc h b =
    ap (λ (xs : List ℕ). record b { bytes = xs }) (sym (append-nil b.bytes))

pub read_if-Reads {ℓ} :
    {A : Type ℓ} (c : Bool) (m : M A) (enc : List ℕ) (v other : A)
    → Reads m enc v
    → Reads (read_if c m other) (if_bytes c enc) (if c then v else other)
unfolding if_bytes
read_if-Reads true m enc v other h = h
read_if-Reads false m enc v other h = pure-Reads other

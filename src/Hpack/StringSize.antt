-- ===== src/Hpack/StringSize.antt =====
-- rust/crates/h2ts-client/src/hpack/mod.rs: which form `write_string` takes.
use h2ts.Common.{
  ℕ, ◌<◌, ◌≤◌, ◌≡◌, refl, sym, ◌∙◌, ◌⊎◌, inl, inr, Bool-cases, List, ◌++◌, length, ltb→lt,
  ltb-false→le,
}
use h2ts.Hpack.Huffman.{huffman_encode, huffman_shorter}
use h2ts.Hpack.Huffman.Size.{huffman_shorter_iff}
use h2ts.Hpack.Integer.{write_integer}
use h2ts.Hpack.Strings.{write_string}

-- The Huffman form of a text: the H bit, the length of its Huffman code, and the code.
abbrev pub huffman_form : List ℕ → List ℕ
huffman_form raw = write_integer (length (huffman_encode raw)) 7 0x80 ++ huffman_encode raw

-- The plain form: no H bit, the length of the text, and the text itself.
abbrev pub plain_form : List ℕ → List ℕ
plain_form raw = write_integer (length raw) 7 0x00 ++ raw

-- `write_string` writes the Huffman form of a text where its Huffman code has fewer bytes than the
-- text, and the plain form where it has not.
pub write_string_shortest :
    (raw : List ℕ)
    → ((write_string raw ≡ huffman_form raw) × (length (huffman_encode raw) < length raw))
      ⊎ ((write_string raw ≡ plain_form raw) × (length raw ≤ length (huffman_encode raw)))
unfolding write_string
write_string_shortest raw = elim (Bool-cases (huffman_shorter raw)) [
  | inl shorter ↦ inl (rw shorter refl, ltb→lt _ _ (sym (huffman_shorter_iff raw) ∙ shorter))
  | inr longer ↦ inr (rw longer refl, ltb-false→le _ _ (sym (huffman_shorter_iff raw) ∙ longer))
]

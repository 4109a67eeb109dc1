-- ===== src/PsdCodecs/VoiceText.antt =====
-- What `escape_voice_text` of psd_codecs.cpp returns fits on one line.
use aviutl2mcp.Common.{ℕ, ◌*◌, ◌≤◌, ◌≡◌, ◌≢◌, refl, false, [], ◌∷◌, Bytes, length, arith, ok}
use aviutl2mcp.PsdCodecs.{
  contains, has_forbidden_line_character, escape_lines, escape_voice_text, normalize_psd_voice_text,
  maximum_text_bytes,
}

escape_lines-contains :
    (byte : ℕ) (value : Bytes)
    → byte ≢ b'\\'
    → byte ≢ b'n'
    → (contains byte value ≡ false → contains byte (escape_lines value) ≡ false)
unfolding contains escape_lines
escape_lines-contains byte [] p q h = refl
escape_lines-contains byte (c ∷ []) p q h = ground arith
escape_lines-contains byte (c ∷ d ∷ value) p q h =
    ground (arith, escape_lines-contains byte (d ∷ value) p q, escape_lines-contains byte value p q)

escape_lines-line :
    (value : Bytes)
    → (contains 0x0d (escape_lines value) ≡ false) × (contains 0x0a (escape_lines value) ≡ false)
unfolding contains escape_lines
escape_lines-line [] = (refl, refl)
escape_lines-line (c ∷ []) = ground arith
escape_lines-line (c ∷ d ∷ value) =
    ground (arith, escape_lines-line (d ∷ value), escape_lines-line value)

length-escape_lines : (value : Bytes) → length (escape_lines value) ≤ 2 * length value
unfolding escape_lines
length-escape_lines [] = omega arith
length-escape_lines (c ∷ []) = ground arith
length-escape_lines (c ∷ d ∷ value) =
    ground (arith, length-escape_lines (d ∷ value), length-escape_lines value)

-- A voice text that is accepted becomes one line, without a NUL, a carriage return or a line feed, of
-- at most twice the bytes of the largest text.
pub normalize_psd_voice_text-line :
    (value line : Bytes)
    → normalize_psd_voice_text value ≡ ok line
    → (has_forbidden_line_character line ≡ false) × (length line ≤ 2 * maximum_text_bytes)
unfolding normalize_psd_voice_text escape_voice_text has_forbidden_line_character
normalize_psd_voice_text-line value line h = ground (
  arith,
  escape_lines-contains 0 value (λ e. omega arith) (λ e. omega arith),
  escape_lines-line value,
  length-escape_lines value,
)

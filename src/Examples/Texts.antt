-- ===== src/Examples/Texts.antt =====
-- Texts that AviUtl2MCP.Bridge/src/psd_codecs.cpp tests and escapes.
use aviutl2mcp.Common.{
  ◌*◌, ◌≤◌, ◌≡◌, ◌↔◌, refl, true, false, some, [], ◌∷◌, ◌++◌, Bytes, length, ok, arith,
}
use aviutl2mcp.Ipc.Utf8.{validate_utf8, validate_loop, character}
use aviutl2mcp.PsdCodecs.{
  contains, has_forbidden_line_character, is_valid_utf8, validate_psd_character_id, escape_lines,
  escape_voice_text, normalize_psd_voice_text, escape_lua_string, maximum_text_bytes,
}
use aviutl2mcp.PsdCodecs.Characters.{IsCharacterId, validate_psd_character_id_iff}
use aviutl2mcp.PsdCodecs.LuaStrings.{lua_string, lua_string-escape_lua_string}
use aviutl2mcp.PsdCodecs.VoiceText.{normalize_psd_voice_text-line}

-- The letter あ.
validate_psd_character_id_iff_example :
    ((validate_psd_character_id (0xe3 ∷ 0x81 ∷ 0x82 ∷ [])).is_ok ≡ true)
    ↔ IsCharacterId (0xe3 ∷ 0x81 ∷ 0x82 ∷ [])
validate_psd_character_id_iff_example =
    validate_psd_character_id_iff (0xe3 ∷ 0x81 ∷ 0x82 ∷ []) (ground arith)

-- A quote, a backslash and a line feed.
lua_string-escape_lua_string_example :
    lua_string 9 (escape_lua_string (b'a' ∷ b'"' ∷ b'\\' ∷ 0x0a ∷ []) ++ (b'"' ∷ b')' ∷ []))
    ≡ some (b'a' ∷ b'"' ∷ b'\\' ∷ 0x0a ∷ [], b')' ∷ [])
lua_string-escape_lua_string_example =
    lua_string-escape_lua_string (b'a' ∷ b'"' ∷ b'\\' ∷ 0x0a ∷ []) (b')' ∷ []) 9 (ground arith)
      (omega arith)

abbrev one_line : Bytes
one_line = b'a' ∷ b'\\' ∷ b'n' ∷ b'b' ∷ b'\\' ∷ b'n' ∷ []

text-normalized : normalize_psd_voice_text (b'a' ∷ 0x0d ∷ 0x0a ∷ b'b' ∷ 0x0a ∷ []) ≡ ok one_line
unfolding normalize_psd_voice_text escape_voice_text escape_lines contains is_valid_utf8
    validate_utf8 validate_loop character
text-normalized = refl

normalize_psd_voice_text-line_example :
    (has_forbidden_line_character one_line ≡ false) × (length one_line ≤ 2 * maximum_text_bytes)
normalize_psd_voice_text-line_example =
    normalize_psd_voice_text-line (b'a' ∷ 0x0d ∷ 0x0a ∷ b'b' ∷ 0x0a ∷ []) one_line text-normalized

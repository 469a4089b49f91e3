-- ===== src/Ink/Path/Examples.antt =====
-- An identifier in a path, and the theorem at it.
use finit.Prelude.{◌≡◌, refl, arith, ◌≤◌, ◌<◌, ◌⊎◌, codes, length, none, some}
use finit.Ink.Path.{is_safe, hex, encode_from, link_path_encode}
use finit.Ink.Path.Decode.{escape_all, decode, path_encode-decode}

-- The colon of tty:1 is escaped.
escaped : link_path_encode (codes "tty:1") 8 ≡ some (codes "tty_3a1")
unfolding link_path_encode encode_from is_safe hex
escaped = refl

too_small : link_path_encode (codes "tty:1") 7 ≡ none
unfolding link_path_encode encode_from is_safe hex
too_small = refl

path_encode-decode_example :
    ((length (escape_all (codes "tty:1")) < 8)
        × (link_path_encode (codes "tty:1") 8 ≡ some (escape_all (codes "tty:1")))
      ⊎ (8 ≤ length (escape_all (codes "tty:1"))) × (link_path_encode (codes "tty:1") 8 ≡ none))
    × (decode (escape_all (codes "tty:1")) ≡ codes "tty:1")
path_encode-decode_example = path_encode-decode (codes "tty:1") 8 (omega arith)

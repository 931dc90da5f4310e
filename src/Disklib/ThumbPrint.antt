-- ===== src/Disklib/ThumbPrint.antt =====
-- `GetThumbPrintForServer` and `GetThumbPrintForURL` of pkg/disklib/gvddk_helper.go. `tls.Dial` with
-- the certificates that the connection then shows, and the digest of `crypto/sha1`, are parameters.
pub mod ReadBack
use virtual_disks.Base.{
  ℕ, ◌/◌, ◌%◌, Option, none, some, ◌⊎◌, inl, inr, List, [], ◌∷◌, String, not, if◌then◌else◌,
}
use virtual_disks.Base.Bytes.{Byte}
use Prim.Native.Char.{Char}
use Prim.Native.String as Text
use Prim.Native.String.{◌++◌}
use text.Mathlib.Text.{◌==◌}

-- `0` to `9` and `A` to `F`.
abbrev pub hex_digit : ℕ → Char
hex_digit n = Text.char_at "0123456789ABCDEF" n

-- `fmt.Sprintf("%02X", curByte)`.
abbrev pub two_hex : Byte → String
two_hex b = Text.◌∷◌ (hex_digit (b / 16)) (Text.◌∷◌ (hex_digit (b % 16)) "")

-- `if thumbPrint != "" { thumbPrint = thumbPrint + ":" }`
abbrev pub with_colon : String → String
with_colon thumb_print = if not (thumb_print == "") then thumb_print ++ ":" else thumb_print

-- The loop over the digest's bytes.
unfoldable pub thumb_print_loop : (thumb_print : String) → (sha1_bytes : List Byte) → String
thumb_print_loop thumb_print [] = thumb_print
thumb_print_loop thumb_print (cur_byte ∷ rest) =
    thumb_print_loop (with_colon thumb_print ++ two_hex cur_byte) rest

-- The error of the connection, or "no certs returned for " with the server.
pub data ThumbPrintError (E : Type 0) : Type 0 where
  not_connected : E → ThumbPrintError E
  no_certs : (server : String) → ThumbPrintError E

abbrev pub address : (host port : String) → String
address host port = if not (port == "") then (host ++ ":") ++ port else host

module _ {E : Type 0} (dial : (address : String) → E ⊎ List (List Byte))
    (sha1 : List Byte → List Byte) where
  -- `conn.Close()` is deferred, and leaves nothing that the caller sees.
  unfoldable pub get_thumb_print_for_server :
      (host port : String) → String × Option (ThumbPrintError E)
  get_thumb_print_for_server host port = elim (dial (address host port)) [
    | inl err ↦ ("", some (not_connected err))
    | inr [] ↦ ("", some (no_certs ((host ++ ":") ++ port)))
    | inr (cert ∷ peer_certs) ↦ (thumb_print_loop "" (sha1 cert), none)
  ]

  -- `hostname` and `port` are the methods of `url.URL`.
  unfoldable pub get_thumb_print_for_url :
      {Url : Type 0} (hostname port : Url → String) → Url → String × Option (ThumbPrintError E)
  get_thumb_print_for_url hostname port url = get_thumb_print_for_server (hostname url) (port url)

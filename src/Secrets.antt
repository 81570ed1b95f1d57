-- ===== src/Secrets.antt =====
-- internal/secrets/protector.go: sealing and opening documents. The cipher and the random source
-- are the standard library's.
use egress_manager.Base.{
  ℕ, ◌+◌, ◌*◌, ◌≡◌, ◌||◌, not, Option, none, some, [], ltb, leb, ◌==◌, if◌then◌else◌, Bytes,
  bytes_eq, length, arith,
}

pub record Envelope : Type 0 where
  pub nonce : Bytes
  pub ciphertext : Bytes

-- AES-GCM: what was sealed under a nonce and a context is opened under them, and is longer than the
-- plain text by the overhead.
pub record Aead : Type 0 where
  pub nonce_size : ℕ
  pub overhead : ℕ
  pub gcm_seal : Bytes → Bytes → Bytes → Bytes
  pub gcm_open : Bytes → Bytes → Bytes → Option Bytes
  pub open-seal :
      (nonce text context : Bytes)
      → gcm_open nonce (gcm_seal nonce text context) context ≡ some text
  pub length-seal :
      (nonce text context : Bytes) → length (gcm_seal nonce text context) ≡ length text + overhead

abbrev pub maximum_document_bytes : ℕ
maximum_document_bytes = 128 * 1024

module _ (aead : Aead) where
  open aead use {nonce_size, overhead, gcm_seal, gcm_open}

  -- `io.ReadFull` fills the nonce or fails: the drawn nonce is an argument.
  unfoldable pub seal : Option Bytes → Bytes → Bytes → Option Envelope
  seal drawn context plaintext =
      if bytes_eq context [] || ltb 256 (length context)
      then none
      else if length plaintext == 0 || ltb maximum_document_bytes (length plaintext)
      then none
      else elim drawn [
        | none ↦ none
        | some nonce ↦
            some (record { nonce = nonce; ciphertext = gcm_seal nonce plaintext context })
      ]

  -- A plain text that was opened is checked once more.
  check_document : Option Bytes → Option Bytes
  check_document none = none
  check_document (some text) =
      if length text == 0 || ltb maximum_document_bytes (length text) then none else some text

  pub open_envelope : Bytes → Envelope → Option Bytes
  unfolding check_document
  open_envelope context e =
      if bytes_eq context [] || ltb 256 (length context)
      then none
      else if not (length e.nonce == nonce_size)
          || leb (length e.ciphertext) overhead
          || ltb (maximum_document_bytes + overhead) (length e.ciphertext)
      then none
      else check_document (gcm_open e.nonce e.ciphertext context)

  -- What `Seal` returns, under a nonce of the cipher's size, `Open` turns back into the plain text
  -- under the same context.
  pub open_envelope-seal :
      (drawn : Option Bytes) (context text : Bytes) (e : Envelope)
      → length e.nonce ≡ nonce_size
      → seal drawn context text ≡ some e
      → open_envelope context e ≡ some text
  unfolding seal open_envelope
  open_envelope-seal none context text e n h = ground arith
  open_envelope-seal (some nonce) context text e n h =
      ground (arith, aead.open-seal nonce text context, aead.length-seal nonce text context)

-- ===== src/Mime/Command.antt =====
-- What a command may be read from, and the end of the loop on the prefixes of a subject.
use claude_email.Prelude.{
  ◌<◌, String, Bool, true, false, Option, none, some, ◌≡◌, text_length, rounds_end, arith, str_eq,
}
use claude_email.Mime.{
  Library, EmailMessage, strip_prefix_step, strip_subject_prefixes, is_gpg_signed, extract_command,
}

module _ (lib : Library) where
  -- The loop ends at a subject that the pattern leaves as it is, given that the pattern only cuts.
  pub strip_subject_prefixes_end :
      ((s : String)
        → str_eq (lib.drop_prefix s) s ≡ false
        → text_length (lib.drop_prefix s) < text_length s)
      → (subject : String) → strip_prefix_step lib (strip_subject_prefixes lib subject) ≡ none
  unfolding strip_subject_prefixes strip_prefix_step
  strip_subject_prefixes_end cuts subject =
      rounds_end (strip_prefix_step lib) text_length (λ s r h. shorter s r h) (text_length subject)
        subject (omega arith)
    where
      shorter : (s r : String) → strip_prefix_step lib s ≡ some r → text_length r < text_length s
      shorter s r h = ground (arith, cuts s)

  pub extract_command-signed :
      (message : EmailMessage) (secret : String) (fallback : Bool) (subject : Option String)
      → is_gpg_signed lib message ≡ true
      → extract_command lib (record message { subject = subject }) secret fallback
        ≡ extract_command lib message secret fallback
  unfolding extract_command is_gpg_signed
  extract_command-signed message secret fallback subject h = ground arith

-- ===== src/Session/KeyLog.antt =====
-- The TLS key log in the capture file: `embedTLSKeylog` and `watchTLSKeylog` of
-- cmd/packet_capture.go.
use netobserv_cli.Common.{
  ℕ, ◌+◌, ◌≡◌, refl, sym, ap, subst, if_false, Bool, true, false, ◌&&◌, not, List, [], ◌∷◌, ◌++◌,
  arith, length, drop, all, if◌then◌else◌, append_assoc, append-nil, length-append, ◌∙◌,
}
use netobserv_cli.Text.{Bytes, is_empty}

-- The global `keylogOffset`, and the secrets blocks of the capture file, in order.
pub record KeyLog : Type 0 where
  pub offset : ℕ
  pub blocks : List Bytes

unfoldable pub new_key_log : KeyLog
new_key_log = record { offset = 0; blocks = [] }

-- `ngw.WriteDecryptionSecretsBlock`, where the writer accepts the block.
unfoldable pub write_secrets : Bytes → ℕ → KeyLog → KeyLog
write_secrets secrets offset s = record { offset = offset; blocks = s.blocks ++ secrets ∷ [] }

-- `embedTLSKeylog`, with what `os.ReadFile` gives, if it can read, and whether the writer accepts
-- the block. The caller only logs an error.
unfoldable pub embed_tls_keylog : Bool → Bool → Bytes → KeyLog → KeyLog
embed_tls_keylog readable accepted content s =
    if readable && not (is_empty content) && accepted
    then write_secrets content (length content) s
    else s

-- A round of the watch: whether a stop was received; whether the file can be opened, moved in and
-- read; what the file then holds, as a whole; and whether the writer accepts the block.
pub record WatchRound : Type 0 where
  pub stop_received : Bool
  pub opened : Bool
  pub sought : Bool
  pub readable : Bool
  pub content : Bytes
  pub accepted : Bool

-- The end of a round, with the bytes that were read behind the offset.
unfoldable pub append_secrets : Bool → Bytes → KeyLog → KeyLog
append_secrets accepted [] s = s
append_secrets false (c ∷ more) s = s
append_secrets true (c ∷ more) s = write_secrets (c ∷ more) (s.offset + length (c ∷ more)) s

unfoldable pub watch_round : WatchRound → KeyLog → KeyLog
watch_round r s =
    if r.opened && r.sought && r.readable
    then append_secrets r.accepted (drop s.offset r.content) s
    else s

-- `watchTLSKeylog`, over the ticks of its timer.
unfoldable pub watch_tls_keylog : List WatchRound → KeyLog → KeyLog
watch_tls_keylog [] s = s
watch_tls_keylog (r ∷ rounds) s =
    let rest = watch_tls_keylog rounds (watch_round r s) in if r.stop_received then s else rest

-- What the blocks hold, one after the other.
unfoldable pub secrets_of : List Bytes → Bytes
secrets_of [] = []
secrets_of (b ∷ blocks) = b ++ secrets_of blocks

secrets_of-snoc :
    (blocks : List Bytes) (b : Bytes) → secrets_of (blocks ++ b ∷ []) ≡ secrets_of blocks ++ b
unfolding secrets_of
secrets_of-snoc [] b = append-nil b
secrets_of-snoc (x ∷ blocks) b = rw (secrets_of-snoc blocks b, append_assoc x (secrets_of blocks) b)

drop-append : (xs ys : Bytes) → drop (length xs) (xs ++ ys) ≡ ys
drop-append [] ys = refl
drop-append (x ∷ xs) ys = drop-append xs ys

-- The second text starts with the first.
abbrev pub Extends : Bytes → Bytes → Type 0
Extends f g = (more : Bytes) × f ++ more ≡ g

-- A file that only grows, from what it held at first, over the rounds.
abbrev pub Grows : Bytes → List WatchRound → Type 0
Grows f [] = Unit
Grows f (r ∷ rounds) = Extends f r.content × Grows r.content rounds

-- What was written is the start of the file, up to the offset.
pub record Embedded (f : Bytes) (s : KeyLog) : Type 0 where
  pub starts : Extends (secrets_of s.blocks) f
  pub up_to : s.offset ≡ length (secrets_of s.blocks)

-- A round that reads the file and whose block is accepted.
unfoldable pub succeeds : WatchRound → Bool
succeeds r = (r.opened && r.sought && r.readable) && r.accepted

unfoldable pub is_running : WatchRound → Bool
is_running r = not r.stop_received

Embedded-start : {f g : Bytes} {s : KeyLog} → Extends f g → Embedded f s → Embedded g s
Embedded-start {s = s} (more, e) h = record {
  starts = (
    h.starts.0 ++ more,
    sym (append_assoc (secrets_of s.blocks) h.starts.0 more) ∙ ap (λ x. x ++ more) h.starts.1 ∙ e,
  );
  up_to = h.up_to;
}

write_secrets-Embedded :
    (more : Bytes) (n : ℕ) (s : KeyLog)
    → n ≡ length (secrets_of s.blocks) + length more
    → Embedded (secrets_of s.blocks ++ more) (write_secrets more n s)
      × secrets_of (write_secrets more n s).blocks ≡ secrets_of s.blocks ++ more
unfolding write_secrets
write_secrets-Embedded more n s h =
    let whole = secrets_of-snoc s.blocks more in
    (
      record {
        starts = ([], append-nil (secrets_of (s.blocks ++ more ∷ [])) ∙ whole);
        up_to = h ∙ sym (ap length whole ∙ length-append (secrets_of s.blocks) more);
      },
      whole,
    )

-- The bytes behind the offset are written, or stay to be read.
append_secrets-Embedded :
    (accepted : Bool) (more : Bytes) (s : KeyLog)
    → s.offset ≡ length (secrets_of s.blocks)
    → Embedded (secrets_of s.blocks ++ more) (append_secrets accepted more s)
      × (accepted ≡ true
          → secrets_of (append_secrets accepted more s).blocks ≡ secrets_of s.blocks ++ more)
unfolding append_secrets
append_secrets-Embedded accepted [] s h =
    (record { starts = ([], refl); up_to = h }, λ _. sym (append-nil (secrets_of s.blocks)))
append_secrets-Embedded false (c ∷ more) s h =
    (record { starts = (c ∷ more, refl); up_to = h }, λ e. ground (arith, e))
append_secrets-Embedded true (c ∷ more) s h =
    let written =
      write_secrets-Embedded (c ∷ more) (s.offset + length (c ∷ more)) s
        (ap (λ n. n + length (c ∷ more)) h) in
    (written.0, λ _. written.1)

-- What is read behind the offset of a file that starts with what was written.
read-Embedded :
    (readable accepted : Bool) (f : Bytes) (s : KeyLog)
    → Embedded f s
    → let s' = if readable then append_secrets accepted (drop s.offset f) s else s in
      Embedded f s' × (readable && accepted ≡ true → secrets_of s'.blocks ≡ f)
read-Embedded false accepted f s h = (h, λ e. ground (arith, e))
read-Embedded true accepted f s h =
    let unread =
      ap (λ n. drop n f) h.up_to
      ∙ sym (ap (drop (length (secrets_of s.blocks))) h.starts.1)
      ∙ drop-append (secrets_of s.blocks) h.starts.0 in
    subst
      (λ d.
        Embedded f (append_secrets accepted d s)
        × (accepted ≡ true → secrets_of (append_secrets accepted d s).blocks ≡ f))
      (sym unread)
      (subst
        (λ g.
          Embedded g (append_secrets accepted h.starts.0 s)
          × (accepted ≡ true → secrets_of (append_secrets accepted h.starts.0 s).blocks ≡ g))
        h.starts.1 (append_secrets-Embedded accepted h.starts.0 s h.up_to))

watch_round-Embedded :
    (r : WatchRound) (s : KeyLog)
    → Embedded r.content s
    → Embedded r.content (watch_round r s)
      × (succeeds r ≡ true → secrets_of (watch_round r s).blocks ≡ r.content)
unfolding watch_round succeeds
watch_round-Embedded r s h =
    read-Embedded (r.opened && r.sought && r.readable) r.accepted r.content s h

-- The watch goes on in a file that only grows; its last round, if it succeeds, reads up to the end.
pub watch-whole :
    (rounds : List WatchRound) (r : WatchRound) (f : Bytes) (s : KeyLog)
    → Grows f (rounds ++ r ∷ [])
    → all is_running (rounds ++ r ∷ []) ≡ true
    → succeeds r ≡ true
    → Embedded f s
    → secrets_of (watch_tls_keylog (rounds ++ r ∷ []) s).blocks ≡ r.content
unfolding watch_tls_keylog is_running all
watch-whole [] r f s (grown, _) running ok h =
    let going : r.stop_received ≡ false = ground (arith, running) in
    ap (λ t. secrets_of t.blocks) (if_false s (watch_round r s) going)
    ∙ (watch_round-Embedded r s (Embedded-start grown h)).1 ok
watch-whole (q ∷ rounds) r f s (grown, later) running ok h =
    let going : q.stop_received ≡ false = ground (arith, running) in
    ap (λ t. secrets_of t.blocks)
      (if_false s (watch_tls_keylog (rounds ++ r ∷ []) (watch_round q s)) going)
    ∙ watch-whole rounds r q.content (watch_round q s) later (ground (arith, running)) ok
        (watch_round-Embedded q s (Embedded-start grown h)).0

new_key_log-Embedded : (f : Bytes) → Embedded f new_key_log
unfolding new_key_log secrets_of
new_key_log-Embedded f = record { starts = (f, refl); up_to = refl }

embed-Embedded :
    (readable accepted : Bool) (f : Bytes)
    → Embedded f (embed_tls_keylog readable accepted f new_key_log)
unfolding embed_tls_keylog new_key_log secrets_of
embed-Embedded false accepted f = new_key_log-Embedded f
embed-Embedded true accepted [] = new_key_log-Embedded []
embed-Embedded true false (c ∷ f) = new_key_log-Embedded (c ∷ f)
embed-Embedded true true (c ∷ f) =
    (write_secrets-Embedded (c ∷ f) (length (c ∷ f)) new_key_log (omega arith)).0

-- Every byte of the key log is embedded in the capture file once, and in order, whatever failed
-- before: once a round of the watch succeeds, after rounds in which no stop was received, the blocks
-- hold together what the file holds, if the file only grows.
pub key_log_embedded_once :
    (readable accepted : Bool) (f : Bytes) (rounds : List WatchRound) (r : WatchRound)
    → Grows f (rounds ++ r ∷ [])
    → all is_running (rounds ++ r ∷ []) ≡ true
    → succeeds r ≡ true
    → secrets_of
        (watch_tls_keylog
          (rounds ++ r ∷ [])
          (embed_tls_keylog readable accepted f new_key_log)).blocks
      ≡ r.content
key_log_embedded_once readable accepted f rounds r grown running ok =
    watch-whole rounds r f (embed_tls_keylog readable accepted f new_key_log) grown running ok
      (embed-Embedded readable accepted f)

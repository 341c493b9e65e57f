-- ===== src/RequestBudget/Checkpoints/Restore.antt =====
-- A saved checkpoint gives the compacted prompt back.
use codeberg.Base.{
  ℕ, suc, ◌+◌, ◌-◌, ◌≤◌, ◌<◌, ◌≡◌, ◌==◌, ◌&&◌, inl, inr, if◌then◌else◌, Bool, true, false, Option,
  none, some, List, [], ◌∷◌, ◌++◌, length, get_elem?, arith, refl, sym, ap, ◌∙◌, subst,
  Option-cases,
}
use codeberg.Text.{Text}
use codeberg.Text.Same.{same_text_refl}
use codeberg.History.Files.{captures}
use codeberg.RequestBudget.Estimate.{user, same_role, Request, Message, Content}
use codeberg.RequestBudget.Compact.{
  RequestCheckpoint, Summary, Compaction, compacted, compact_request, marker_of,
}
use codeberg.RequestBudget.Compact.Laws.{Names, split_of, compact_request-IsCompacted}
use codeberg.Prefixes.{prefix_keys, has_archives, check, load}
use codeberg.Prefixes.Laws.{keys-append, key_at, only, load-only, load_found}
use codeberg.RequestBudget.Checkpoints.{
  is_text_content, SavedCheckpoint, has_key, valid, keeps_below, all_text, text_of, replace_prefix,
  save, accepts, restore_from, restore,
}
use codeberg.RequestBudget.Checkpoints.Replace.{checkpoint-replaced}
use codeberg.RequestBudget.Checkpoints.Sound.{checkpoint-IsSound}

module _ (hash : Text → Text) (fingerprint : Message → Text) (resolves : Text → Bool) (key : Text)
    (saved : SavedCheckpoint) where
  -- A pass after the checkpoint was used ends the loop.
  visited_stops :
      (n : ℕ) (prompt : List Message)
      → restore_from hash fingerprint resolves (only key saved) (suc n) (saved.hash ∷ []) prompt
        ≡ prompt
  unfolding restore_from has_key
  visited_stops n prompt =
      elim (Option-cases
        (load (accepts resolves) (only key saved) 1 (prefix_keys hash fingerprint [] prompt))) [
          | inl missing ↦ rw (missing, restore_from) refl
          | inr (found, there_is) ↦
              let same =
                load-only (accepts resolves) key saved 1 (prefix_keys hash fingerprint [] prompt)
                  found there_is in
              rw (there_is, restore_from, same, same_text_refl saved.hash) refl
        ]

  used_once :
      (n : ℕ) (prompt next : List Message)
      → load (accepts resolves) (only key saved) 1 (prefix_keys hash fingerprint [] prompt)
        ≡ some saved
      → replace_prefix saved.checkpoint prompt ≡ some next
      → restore_from hash fingerprint resolves (only key saved) (suc (suc n)) [] prompt ≡ next
  unfolding restore_from has_key
  used_once n prompt next l r = rw (l, restore_from, r) (visited_stops n next)

module _ (hash : Text → Text) (fingerprint : Message → Text) (resolves : Text → Bool) where
  -- What is saved is found again where the prompt goes on.
  save-restore :
      (prompt more next : List Message) (c : RequestCheckpoint)
      → 0 < c.count
      → c.count ≤ length prompt
      → ((key : Text)
          → check (accepts resolves) key c.count (some (record { checkpoint = c; hash = key }))
            ≡ some (record { checkpoint = c; hash = key }))
      → replace_prefix c (prompt ++ more) ≡ some next
      → restore hash fingerprint resolves (save hash fingerprint true prompt c []) (prompt ++ more)
        ≡ next
  unfolding restore save
  save-restore prompt more next c p w ok r =
      let (key, found) = key_at hash fingerprint (c.count - 1) [] prompt (omega arith) in
      let longer : get_elem? (prefix_keys hash fingerprint [] (prompt ++ more)) (c.count - 1)
          ≡ some key =
        keys-append hash fingerprint (c.count - 1) [] prompt more (omega arith) ∙ found in
      let nonzero : (c.count == 0) ≡ false = ground arith in
      let total : c.count ≡ 1 + (c.count - 1) = omega arith in
      let saved : SavedCheckpoint = record { checkpoint = c; hash = key } in
      let ok' : check (accepts resolves) key (1 + (c.count - 1)) (some saved) ≡ some saved =
        subst (λ k. check (accepts resolves) key k (some saved) ≡ some saved) total (ok key) in
      let loaded =
        load_found (accepts resolves) key saved 1 (c.count - 1)
          (prefix_keys hash fingerprint [] (prompt ++ more)) longer ok' in
      let done = used_once hash fingerprint resolves key saved 30 (prompt ++ more) next loaded r in
      subst
        (λ (o : Option Text).
          restore_from hash fingerprint resolves
            (elim (if c.count == 0 then none else o) [
              | none ↦ []
              | some k ↦ (k, some (record { checkpoint = c; hash = k })) ∷ []
            ])
            32 [] (prompt ++ more)
          ≡ next)
        (sym found) (rw nonzero done)

  check_sound :
      (c : RequestCheckpoint) (t key : Text)
      → c.marker ≡ marker_of t
      → keeps_below c.count c.preserve_user ≡ true
      → has_archives resolves (captures (text_of c.marker.content)) ≡ true
      → check (accepts resolves) key c.count (some (record { checkpoint = c; hash = key }))
        ≡ some (record { checkpoint = c; hash = key })
  unfolding check valid all_text
  check_sound c t key m k a =
      let same = same_text_refl key in
      let number : (c.count == c.count) ≡ true = ground arith in
      let role : same_role c.marker.role user ≡ true =
        ap (λ (x : Message). same_role x.role user) m in
      let textual : is_text_content c.marker.content ≡ true =
        ap (λ (x : Message). is_text_content x.content) m in
      let good : (valid (record { checkpoint = c; hash = key }) key c.count
            && has_archives resolves (captures (text_of c.marker.content)))
          ≡ true =
        ground arith in
      simp good

named_text :
    (file : Text) (marker : Message) → Names file marker → (t : Text) × (marker ≡ marker_of t)
named_text file marker (inl short) = (_, short)
named_text file marker (inr (summary, long)) = (_, long)

module _ (hash : Text → Text) (fingerprint : Message → Text) (resolves : Text → Bool)
    (canonical : Content → Text) (write_history : Text → Option Text)
    (summarize : Text → ℕ → Summary) where
  -- If compaction returns a request and a checkpoint, and the marker of the checkpoint names a
  -- file and each that it names resolves, then restoring the prompt with any messages after it,
  -- from a directory with that checkpoint only, gives the compacted prompt with these messages
  -- after it.
  pub compact-saved_restored :
      (request : Request) (budget : ℕ) (compaction : Compaction) (c : RequestCheckpoint)
      (more : List Message)
      → compact_request canonical write_history summarize request budget ≡ compacted compaction
      → compaction.checkpoint ≡ some c
      → has_archives resolves (captures (text_of c.marker.content)) ≡ true
      → restore hash fingerprint resolves
          (save hash fingerprint true request.prompt c [])
          (request.prompt ++ more)
        ≡ compaction.request.prompt ++ more
  compact-saved_restored request budget compaction c more e saved a =
      let k =
        compact_request-IsCompacted canonical write_history summarize request budget compaction e in
      let made = sym k.saved ∙ saved in
      let sound =
        checkpoint-IsSound request (split_of request budget) k.marker c k.moved k.parted made in
      let (t, marked) = named_text k.file k.marker k.names in
      let replaced =
        checkpoint-replaced request (split_of request budget) k.marker c more k.parted made in
      save-restore hash fingerprint resolves request.prompt more (compaction.request.prompt ++ more)
        c sound.positive sound.within
        (λ key. check_sound hash fingerprint resolves c t key (sound.marked ∙ marked) sound.keeps a)
        (replaced ∙ ap (λ (r : Request). some (r.prompt ++ more)) (sym k.prompt))

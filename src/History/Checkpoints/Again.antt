-- ===== src/History/Checkpoints/Again.antt =====
-- A saved checkpoint gives the fitted chat back.
use codeberg.Base.{
  ℕ, zero, suc, ◌+◌, ◌-◌, ◌≤◌, ◌≡◌, Bool, true, Option, none, some, List, [], ◌∷◌, ◌++◌, length,
  drop, get_elem?, arith, refl, sym, ap, ◌∙◌, subst, length-drop,
}
use codeberg.Text.{Text}
use codeberg.Prefixes.{prefix_keys, has_archives}
use codeberg.Prefixes.Laws.{keys-append, load_found}
use codeberg.History.Messages.{ModelMessage}
use codeberg.History.Files.{captures}
use codeberg.History.Fit.{FitOptions, user_message, history_marker}
use codeberg.History.Fit.Laws.{start_of}
use codeberg.History.Checkpoints.{
  Checkpoint, content_of, accepts_checkpoint, restored, load_checkpoint, run,
}
use codeberg.History.Checkpoints.Markers.{history_marker-is_marker}
use codeberg.History.Checkpoints.Laws.{
  fit_history-IsMarked, drop-append, record_of-IsRecorded, saved_as, run-IsSaved, accepts-saved,
}

marker_again :
    (s : Option Text) (n : ℕ) (files : List Text)
    → user_message (history_marker s n files).text ≡ history_marker s n files
unfolding history_marker
marker_again none n files = refl
marker_again (some s) n files = refl

-- The messages that are left, from the number of those that are gone.
drop_gone : (n : ℕ) (l : List ModelMessage) → drop (length l - length (drop n l)) l ≡ drop n l
drop_gone zero l =
    let none_gone : length l - length l ≡ 0 = omega arith in ap (λ k. drop k l) none_gone
drop_gone (suc n) [] = refl
drop_gone (suc n) (x ∷ l) =
    let left = length-drop n l in
    let gone : suc (length l) - length (drop n l) ≡ suc (length l - length (drop n l)) =
      omega arith in
    ap (λ k. drop k (x ∷ l)) gone ∙ drop_gone n l

module _ (digest : Text → Text) (fingerprint : ModelMessage → Text) (resolves : Text → Bool) where
  -- If fitting a chat with no checkpoint at hand saves one, and each file that its marker names
  -- resolves, of which there is one, then the same chat with any messages after it is taken up as
  -- the fitted chat with these messages after it.
  pub saved-restored :
      (messages more : List ModelMessage) (o : FitOptions) (r : List ModelMessage) (key : Text)
      (c : Checkpoint)
      → run digest fingerprint resolves true messages o [] ≡ saved_as r key c
      → has_archives resolves (captures (content_of c.content)) ≡ true
      → restored
          (load_checkpoint digest fingerprint resolves
            ((key, some c) ∷ [])
            (prefix_keys digest fingerprint [] (messages ++ more)))
          (messages ++ more)
        ≡ r ++ more
  unfolding load_checkpoint
  saved-restored messages more o r key c e a =
      let (fitted, changed, s) = run-IsSaved digest fingerprint resolves messages o r key c e in
      let m = fit_history-IsMarked messages o r changed fitted in
      let marker = history_marker m.summary m.omitted m.files in
      let left = drop (start_of o messages) messages in
      let both : s.first ∷ s.rest ≡ marker ∷ left = sym s.fitted_lem ∙ m.fitted_lem in
      let is_first : s.first ≡ marker = cc in
      let is_rest : s.rest ≡ left = cc in
      let count = length messages - length left in
      let count_is : length messages - length s.rest ≡ count =
        ap (λ (l : List ModelMessage). length messages - length l) is_rest in
      let k =
        record_of-IsRecorded (prefix_keys digest fingerprint [] messages)
          (length messages - length s.rest) s.first c s.recorded in
      let text_is : c.content ≡ some marker.text =
        k.text_kept ∙ ap (λ (x : ModelMessage). some x.text) is_first in
      let counted : c.count ≡ count = k.counted ∙ count_is in
      let positive : 1 ≤ count = omega (arith, k.positive) in
      let found : get_elem? (prefix_keys digest fingerprint [] messages) (count - 1) ≡ some key =
        subst (λ n. get_elem? (prefix_keys digest fingerprint [] messages) (n - 1) ≡ some key)
          count_is (k.found ∙ ap some (sym s.keyed)) in
      let longer =
        keys-append digest fingerprint (count - 1) [] messages more (omega arith) ∙ found in
      let total : count ≡ 1 + (count - 1) = omega arith in
      let accepted =
        accepts-saved digest fingerprint resolves (1 + (count - 1)) key marker.text c
          (counted ∙ total) s.keyed k.from_user text_is
          (history_marker-is_marker m.summary m.omitted m.files)
          (subst (λ (t : Option Text). has_archives resolves (captures (content_of t)) ≡ true)
            text_is a) in
      let loaded =
        load_found (accepts_checkpoint resolves) key c 1 (count - 1)
          (prefix_keys digest fingerprint [] (messages ++ more)) longer accepted in
      let first_is : user_message (content_of c.content) ≡ marker =
        ap (λ t. user_message (content_of t)) text_is ∙ marker_again m.summary m.omitted m.files in
      let rest_is : drop c.count (messages ++ more) ≡ left ++ more =
        ap (λ n. drop n (messages ++ more)) counted
        ∙ drop-append count messages more (omega arith)
        ∙ ap (λ l. l ++ more) (drop_gone (start_of o messages) messages) in
      let whole : user_message (content_of c.content) ∷ drop c.count (messages ++ more)
          ≡ (marker ∷ left) ++ more =
        cc in
      ap (λ saved. restored saved (messages ++ more)) loaded
      ∙ whole
      ∙ ap (λ l. l ++ more) (sym m.fitted_lem)

-- ===== src/Branch/Tests.antt =====
-- A chat that is branched: the theorems of branches at inputs that meet their hypotheses, and runs
-- of the operations.
use codeberg.Text.{codes, ends_with, is_space, trim, trim_end, trim_start}
use codeberg.Base.{ℕ, suc, ◌≡◌, none, some, List, [], ◌∷◌, take, arith, refl}
use codeberg.History.Messages.{Role, user, assistant}
use codeberg.Branch.Transcript.{at, BranchOptions, branch_end_index, branch_transcript}
use codeberg.Branch.Transcript.Laws.{IsBranchEnd, branch_transcript-IsBranchEnd}
use codeberg.Branch.Title.{collapse, branch_title}

abbrev chat : List Role
chat = user ∷ assistant ∷ user ∷ assistant ∷ []

abbrev role_of : Role → Role
role_of r = r

abbrev through : ℕ → BranchOptions Role
through n = record { through_index = some (at n); remap = none }

question_test : branch_transcript role_of chat (through 2) ≡ chat
unfolding branch_transcript branch_end_index
question_test = refl

answer_test : branch_transcript role_of chat (through 1) ≡ user ∷ assistant ∷ []
unfolding branch_transcript branch_end_index
answer_test = refl

title_test : branch_title (codes " My  chat ") (codes "New chat") ≡ codes "My chat (branch)"
unfolding branch_title collapse trim trim_start trim_end is_space ends_with
title_test = refl

branch_transcript-IsBranchEnd_example :
    (end : ℕ) × IsBranchEnd role_of chat (at 2) end
    × (branch_transcript role_of chat (through 2) ≡ take (suc end) chat)
branch_transcript-IsBranchEnd_example =
    branch_transcript-IsBranchEnd role_of chat (through 2) (ground arith)

-- ===== src/Adm/History/Nodes/Names.antt =====
-- The names of the nodes of the history, written and read.
use manatee.Base.{ℕ, Text, ◌≡◌, refl, ◌∙◌, List, [], ◌∷◌, some, arith, Outcome, ok}
use manatee.Base.Texts.{split, parse_int}
use manatee.Base.Texts.Splits.{join, AllWithout, split-join}
use manatee.Adm.Edits.{State}
use manatee.Adm.History.Nodes.{old_node, cleaned, old_history_to_obj, translate_history_node}

-- The name of a node of version 1: timestamp-ip-action-role-master-slave-zkseq.
abbrev pub old_name : Text → Text → Text → Text → Text → Text → Text → Text
old_name time ip action role master slave zk_seq =
    join b'-' time (ip ∷ action ∷ role ∷ master ∷ slave ∷ zk_seq ∷ [])

-- A part that stands for itself.
abbrev pub IsPlain : Text → Type 0
IsPlain part = cleaned part ≡ part

translate_long :
    (fetch : Text → Outcome Text (ℕ × State)) (name a b c : Text) (rest : List Text)
    → split b'-' name ≡ a ∷ b ∷ c ∷ rest
    → translate_history_node fetch name ≡ ok (old_node (old_history_to_obj (a ∷ b ∷ c ∷ rest)))
unfolding translate_history_node
translate_long fetch name a b c rest h = rw (translate_history_node, h) (ground arith)

-- The name of a node of version 1 is read back into the parts that it was made of, without a read of
-- ZooKeeper, if no part holds a dash or is the text of a missing value.
translate-old_name :
    (fetch : Text → Outcome Text (ℕ × State)) (time ip action role master slave zk_seq : Text)
    → AllWithout b'-' (time ∷ ip ∷ action ∷ role ∷ master ∷ slave ∷ zk_seq ∷ [])
    → IsPlain time
    → IsPlain ip
    → IsPlain action
    → IsPlain role
    → IsPlain master
    → IsPlain slave
    → IsPlain zk_seq
    → translate_history_node fetch (old_name time ip action role master slave zk_seq)
      ≡ ok (
          old_node (record {
            time = parse_int time;
            ip = some ip;
            action = some action;
            role = some role;
            master = some master;
            slave = some slave;
            zk_seq = some zk_seq;
          }))
unfolding old_history_to_obj parse_int
translate-old_name fetch time ip action role master slave zk_seq h p0 p1 p2 p3 p4 p5 p6 =
    translate_long fetch _ time ip action (role ∷ master ∷ slave ∷ zk_seq ∷ [])
      (split-join b'-' time (ip ∷ action ∷ role ∷ master ∷ slave ∷ zk_seq ∷ []) h)
    ∙ rw (old_history_to_obj, p0, p1, p2, p3, p4, p5, p6) refl

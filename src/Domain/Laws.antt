-- ===== src/Domain/Laws.antt =====
-- How the queries of src/domain/conversation.ts agree with one another.
use jiffy_messaging.Base.{◌≡◌, refl, String, some, List, [], ◌∷◌, arith, find, any, is_some, eq_iff}
use jiffy_messaging.Domain.{
  ConversationParticipant, Conversation, is_user, participant_of, is_participant,
}

find-any :
    (uid : String) (ps : List ConversationParticipant)
    → is_some (find (is_user uid) ps) ≡ any (is_user uid) ps
find-any uid [] = refl
find-any uid (p ∷ ps) = ground (arith, find-any uid ps)

find-user_id :
    (uid : String) (ps : List ConversationParticipant) (p : ConversationParticipant)
    → find (is_user uid) ps ≡ some p
    → p.user_id ≡ uid
find-user_id uid [] p h = ground arith
find-user_id uid (q ∷ ps) p h = ground (arith, find-user_id uid ps p, eq_iff q.user_id uid)

-- `isParticipant` says whether `participantOf` finds someone.
pub is_participant-participant_of :
    (c : Conversation) (uid : String) → is_some (participant_of c uid) ≡ is_participant c uid
unfolding participant_of is_participant
is_participant-participant_of c uid = find-any uid c.participants

pub participant_of-user_id :
    (c : Conversation) (uid : String) (p : ConversationParticipant)
    → participant_of c uid ≡ some p
    → p.user_id ≡ uid
unfolding participant_of
participant_of-user_id c uid p h = find-user_id uid c.participants p h

-- ===== src/Router/Policy.antt =====
-- packages/model-router/src/policy.ts, with the tasks of contracts.ts and the capabilities of
-- ports.ts.
use reflo_learning.Prelude.{
  ℕ, String, Bool, true, false, Option, none, some, List, [], ◌∷◌, ◌===◌, if◌then◌else◌,
}

pub data ModelTaskId : Type 0 where
  curriculum_structure curriculum_segment lesson_text lesson_reteach lesson_audio_script :
      ModelTaskId
  assessment_quiz assessment_grade_short_answer tutor_answer embedding_document : ModelTaskId
  embedding_query media_tts media_video : ModelTaskId

pub ModelTaskId-discrete : Discrete ModelTaskId
ModelTaskId-discrete = hlevel

abbrev pub task_text : ModelTaskId → String
task_text curriculum_structure = "curriculum.structure.v1"
task_text curriculum_segment = "curriculum.segment.v1"
task_text lesson_text = "lesson.text.v1"
task_text lesson_reteach = "lesson.reteach.v1"
task_text lesson_audio_script = "lesson.audio-script.v1"
task_text assessment_quiz = "assessment.quiz.v1"
task_text assessment_grade_short_answer = "assessment.grade-short-answer.v1"
task_text tutor_answer = "tutor.answer.v1"
task_text embedding_document = "embedding.document.v1"
task_text embedding_query = "embedding.query.v1"
task_text media_tts = "media.tts.v1"
task_text media_video = "media.video.v1"

abbrev pub model_task_ids : List ModelTaskId
model_task_ids =
    curriculum_structure ∷ curriculum_segment ∷ lesson_text ∷ lesson_reteach ∷ lesson_audio_script
    ∷ assessment_quiz ∷ assessment_grade_short_answer ∷ tutor_answer ∷ embedding_document
    ∷ embedding_query ∷ media_tts ∷ media_video ∷ []

find_task : String → List ModelTaskId → Option ModelTaskId
find_task text [] = none
find_task text (t ∷ ts) = if task_text t === text then some t else find_task text ts

-- `isModelTaskId`, with the task that it narrows to.
unfoldable pub as_model_task_id : String → Option ModelTaskId
unfolding find_task
as_model_task_id text = find_task text model_task_ids

pub data ModelCapability : Type 0 where
  dialogue embedding grading grounded_generation speech structured video : ModelCapability

unfoldable pub ModelCapability-discrete : Discrete ModelCapability
ModelCapability-discrete = hlevel

-- The schema names, and the marks `textType` and `mediaRetryRequiresSubmissionIdempotency`, which the
-- router does not read, are left out; `is_video_gated` is `featureFlag: "p1.media.video"`.
pub record RouteDefinition : Type 0 where
  pub capability : ModelCapability
  pub fallback : Option String
  pub is_video_gated : Bool
  pub max_immediate_attempts : ℕ
  pub prompt : Option (String × String)
  pub requested_selector : String

abbrev route : ModelCapability → String → Option (String × String) → RouteDefinition
route capability selector prompt = record {
  capability = capability;
  fallback = none;
  is_video_gated = false;
  max_immediate_attempts = 2;
  prompt = prompt;
  requested_selector = selector;
}

unfoldable pub route_policy_v6 : ModelTaskId → RouteDefinition
route_policy_v6 assessment_grade_short_answer =
    route grading "qwen.grading" (some ("assessment-grade-short-answer", "3"))
route_policy_v6 assessment_quiz = route structured "qwen.structured" (some ("assessment-quiz", "4"))
route_policy_v6 curriculum_segment =
    route structured "qwen.structured" (some ("curriculum-segment", "2"))
route_policy_v6 curriculum_structure =
    route structured "qwen.structured" (some ("curriculum-structure", "2"))
route_policy_v6 embedding_document = route embedding "embedding-v1" none
route_policy_v6 embedding_query = route embedding "embedding-v1" none
route_policy_v6 lesson_audio_script =
    route grounded_generation "qwen.grounded-generation" (some ("lesson-audio-script", "2"))
route_policy_v6 lesson_reteach =
    route grounded_generation "qwen.grounded-generation" (some ("lesson-reteach", "2"))
route_policy_v6 lesson_text =
    route grounded_generation "qwen.grounded-generation" (some ("lesson-text", "2"))
route_policy_v6 media_tts =
    let r = route speech "qwen-tts.primary" none in record r { fallback = some "piper-tts.cpu" }
route_policy_v6 media_video =
    let r = route video "wanx.video" (some ("media-video", "2")) in
    record r { is_video_gated = true }
route_policy_v6 tutor_answer = route dialogue "qwen.dialogue" (some ("tutor-answer", "2"))

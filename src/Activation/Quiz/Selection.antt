-- ===== src/Activation/Quiz/Selection.antt =====
-- packages/activation/src/service.ts: what `selectUnseenQuizItems` selects.
use reflo_learning.Prelude.{List}

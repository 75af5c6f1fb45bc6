-- ===== src/Post/Samples.antt =====
-- The theorems on posts, likes and comments at concrete tables.
use social_network_micro_ser.Prelude.{
  codes, text_eq, true, false, [], ◌∷◌, none, some, ◌≡◌, refl, arith, ok, pos, matches, Bool,
}
use social_network_micro_ser.Services.Sql.{list_sql}
use social_network_micro_ser.Post.Report.{trim_space}
use social_network_micro_ser.Post.Entities.{
  PostEntity, CommentEntity, LikeEntity, Env, World, friend, review_requested, keywords_extracted,
}
use social_network_micro_ser.Post.Rows.{liked_by, comment_named, entity_to_model}
use social_network_micro_ser.Post.Posts.{new_post, get_post, update_content}
use social_network_micro_ser.Post.Comments.{new_comment, delete_comment}
use social_network_micro_ser.Post.Likes.{
  LikesKept, like, unlike, run_calls, run_calls-LikesKept, likes_of,
}
use social_network_micro_ser.Post.Access.{get_post_lem, delete_comment_lem, update_content_lem}

abbrev same_id : PostEntity → PostEntity → Bool
same_id p q = text_eq q.id p.id

abbrev same_comment : CommentEntity → CommentEntity → Bool
same_comment c d = text_eq d.id c.id

abbrev same_like : LikeEntity → LikeEntity → Bool
same_like l k = liked_by l.target_id l.user_id k

abbrev sample_env : Env
sample_env = record {
  posts = list_sql PostEntity same_id;
  likes = list_sql LikeEntity same_like;
  comments = list_sql CommentEntity same_comment;
  comment_likes = list_sql LikeEntity same_like;
  has_keywords = true;
  has_notification = true;
  has_files = false;
  has_moderation = true;
  max_post_content_length = pos 5000;
  max_post_attach_files = pos 10;
  max_comment_content_length = pos 1000;
}

abbrev friends_post : PostEntity
friends_post = new_post (codes "p") (codes "ann") (codes "hello") friend [] [] 1

abbrev a_comment : CommentEntity
a_comment = new_comment (codes "c") (codes "p") (codes "bob") [] (codes "hi") none 2

abbrev sample_world : World sample_env
sample_world = record {
  post_rows = friends_post ∷ [];
  like_rows = [];
  comment_rows = a_comment ∷ [];
  comment_like_rows = [];
  events = [];
}

run_calls-LikesKept_example : LikesKept sample_env (
    run_calls sample_env
      (like (codes "bob") (codes "p")
        ∷ like (codes "bob") (codes "p")
        ∷ unlike (codes "ann") (codes "p")
        ∷ [])
      sample_world)
unfolding text_eq likes_of matches new_post
run_calls-LikesKept_example =
    run_calls-LikesKept sample_env
      (like (codes "bob") (codes "p")
        ∷ like (codes "bob") (codes "p")
        ∷ unlike (codes "ann") (codes "p")
        ∷ [])
      sample_world
      (record {
        ready = record { posts_up = tt; likes_up = tt; unique = λ l k. refl };
        counted = record { counted = refl; once = λ id user. omega arith };
      })

get_post_lem_example :
    (get_post sample_env (codes "p") (codes "eve") sample_world).0
    ≡ ok (entity_to_model sample_env friends_post (codes "eve") sample_world)
unfolding text_eq new_post
get_post_lem_example = get_post_lem sample_env sample_world friends_post tt refl (codes "eve")

delete_comment_lem_example :
    let r = delete_comment sample_env (codes "eve") (codes "c") false sample_world in
    (r.0 ≡ ok tt) × (matches (comment_named (codes "c")) r.1.comment_rows ≡ 0)
unfolding text_eq new_post new_comment
delete_comment_lem_example =
    delete_comment_lem sample_env sample_world friends_post tt refl a_comment (codes "eve") false tt
      refl refl refl

update_content_lem_example :
    let r =
      update_content sample_env (codes "ann") (codes "p") (some (codes "bye")) [] [] sample_world in
    (r.0 ≡ ok tt)
    × (r.1.events
        ≡ review_requested (codes "POST") (codes "p") (codes "ann") (codes "ann") []
          ∷ keywords_extracted (codes "p") (codes "ann")
          ∷ [])
unfolding text_eq new_post trim_space
update_content_lem_example =
    update_content_lem sample_env sample_world friends_post tt refl (codes "bye") [] [] refl refl
      refl refl

-- ===== src/Gateway/Laws.antt =====
-- What the routes of one image answer, by the gateway's response.
use deedlit_dev.Base.{◌≡◌, false, none, some, arith, ◌==◌, if◌then◌else◌, Text, codes}
use deedlit_dev.Http.{json_error, handle_route}
use deedlit_dev.Gateway.{
  Response, Runtime, error_text, image_call, delete_image, delete_route, not_found_or, request,
  read_response,
}

-- A refusal of the gateway to delete an image is answered with 404 where it is a 404, else with 500
-- and the detail of its body, or where there is none with the call and its status.
pub delete_route_refused :
    (runtime : Runtime) (image_id : Text) (res : Response)
    → runtime.fetch (image_call runtime (codes "DELETE") image_id none) ≡ some res
    → res.ok ≡ false
    → delete_route runtime image_id ≡ (
        if res.status == 404
        then json_error (codes "Image not found.") 404
        else json_error (error_text (image_call runtime (codes "DELETE") image_id none) res) 500)
unfolding delete_route not_found_or request read_response delete_image handle_route
delete_route_refused runtime image_id res e refused = ground (arith, e, refused)

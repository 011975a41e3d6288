-- ===== src/Nginx/Pages.antt =====
-- src/domain/error_pages.go: the error pages of the proxy. The execution of the HTML template belongs
-- to the library: it is a parameter.
use previewctl.Base.{List, [], ◌∷◌, ◌++◌, Text, bytes, Map}

pub record ErrorPageData : Type 0 where
  pub title : Text
  pub badge : Text
  pub badge_class : Text
  pub heading : Text
  pub description : Text
  pub actions : List (Text × Text)
  pub hint : Text

unfoldable pub page_502 : Text → ErrorPageData
page_502 env_name = record {
  title = bytes "502 - Service Unavailable";
  badge = bytes "502 Bad Gateway";
  badge_class = bytes "err";
  heading = bytes "Service Unavailable";
  description =
      bytes "The service is started but not responding. "
      ++ bytes "It may still be booting, or it may have crashed.";
  actions =
      (bytes "Check the logs:", bytes "previewctl -e " ++ (env_name ++ bytes " env service logs"))
      ∷ [];
  hint =
      bytes "If the service keeps crashing, try: previewctl -e "
      ++ (env_name ++ bytes " env service restart");
}

unfoldable pub page_503 : Text → ErrorPageData
page_503 env_name = record {
  title = bytes "503 - Service Not Started";
  badge = bytes "503 Not Started";
  badge_class = bytes "warn";
  heading = bytes "Service Not Started";
  description =
      bytes "This service exists in environment "
      ++ (env_name ++ bytes " but has not been started yet.");
  actions =
      (
        bytes "Start it with:",
        bytes "previewctl -e " ++ (env_name ++ bytes " env service start <service>"),
      )
      ∷ [];
  hint = [];
}

unfoldable pub page_404 : Text → ErrorPageData
page_404 env_name = record {
  title = bytes "404 - Not Found";
  badge = bytes "404 Not Found";
  badge_class = bytes "info";
  heading = bytes "Unknown Service";
  description =
      bytes "No service matches this subdomain in environment " ++ (env_name ++ bytes ".");
  actions =
      (
        bytes "List available services:",
        bytes "previewctl -e " ++ (env_name ++ bytes " env service list"),
      )
      ∷ [];
  hint = [];
}

-- `GenerateErrorPages`
unfoldable pub generate_error_pages : (ErrorPageData → Text) → Text → Map Text
unfolding page_502 page_503 page_404
generate_error_pages render env_name =
    (bytes "previewctl_502.html", render (page_502 env_name))
    ∷ (bytes "previewctl_503.html", render (page_503 env_name))
    ∷ (bytes "previewctl_404.html", render (page_404 env_name))
    ∷ []

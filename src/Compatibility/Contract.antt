-- ===== src/Compatibility/Contract.antt =====
-- shared/compatibility/runtime-contract.ts: what the published app's shell supports.

use duka_backend.Prelude.{Bool, List, String, [], ℕ, ◌∷◌}
use duka_backend.Compatibility.{includes}

abbrev pub supported_manifest_versions : List String
supported_manifest_versions = "1.0.0" ∷ "1.0" ∷ []

abbrev pub supported_component_types : List String
supported_component_types =
    "button" ∷ "carousel" ∷ "divider" ∷ "form" ∷ "header" ∷ "image" ∷ "image_block" ∷ "map"
    ∷ "product_grid" ∷ "service_list" ∷ "spacer" ∷ "text_block" ∷ "CategoryGrid" ∷ "ContactForm"
    ∷ "HeroBanner" ∷ "ProductCarousel" ∷ "ProductGrid" ∷ "grid" ∷ "hero" ∷ "text" ∷ "heading"
    ∷ "layout" ∷ "surface" ∷ "tab_bar" ∷ "tabs" ∷ "row" ∷ "column" ∷ "category_pills"
    ∷ "cart_summary" ∷ "hero_banner" ∷ "info_list" ∷ "menu_grid" ∷ "order_history"
    ∷ "primary_button" ∷ "promotion_list" ∷ "section_header" ∷ "secondary_button" ∷ "icon_button"
    ∷ "link" ∷ "fab" ∷ "card_container" ∷ "rectangle" ∷ "ellipse" ∷ "gap" ∷ "nested_section"
    ∷ "caption" ∷ "badge" ∷ "tag" ∷ "alert" ∷ "loading_indicator" ∷ "empty_state" ∷ "error_state"
    ∷ "skeleton_loader" ∷ "progress_bar" ∷ "snackbar" ∷ "price_label" ∷ "discount_badge"
    ∷ "quantity_selector" ∷ "coupon_input" ∷ "product_card" ∷ "text_input" ∷ "password_input"
    ∷ "checkbox" ∷ "radio_button" ∷ "toggle_switch" ∷ "dropdown" ∷ "search_box" ∷ "otp_input"
    ∷ "page_header" ∷ "avatar" ∷ "app_image" ∷ "qr_code" ∷ "bottom_sheet" ∷ "statistic_card"
    ∷ "status_badge" ∷ "rating" ∷ "key_value_list" ∷ "vertical_list" ∷ "horizontal_list"
    ∷ "expandable_list" ∷ "notification_list" ∷ "dynamic_form" ∷ "order_detail" ∷ "report_action"
    ∷ "cart_content" ∷ "address_form" ∷ "calendar_strip" ∷ "slot_grid" ∷ "service_picker"
    ∷ "booking_card" ∷ "booking_summary" ∷ "laundry_booking" ∷ "modal" ∷ "overlay" ∷ "header_bar"
    ∷ "menu_item" ∷ "card" ∷ "switch_toggle" ∷ "checkbox_row" ∷ "search_bar" ∷ "icon" ∷ "chevron"
    ∷ "line" ∷ "arrow" ∷ "dynamic_card" ∷ "video" ∷ []

abbrev pub supported_action_types : List String
supported_action_types =
    "navigate" ∷ "push" ∷ "replace" ∷ "pop" ∷ "switch_screen" ∷ "filter" ∷ "search" ∷ "open_modal"
    ∷ "close_modal" ∷ "add_to_cart" ∷ "remove_from_cart" ∷ "checkout" ∷ "view_item" ∷ "submit_form"
    ∷ "api_request" ∷ "api_call" ∷ "book_service" ∷ "open_url" ∷ "open_maps" ∷ "call_phone"
    ∷ "email" ∷ "send_email" ∷ "download" ∷ "share" ∷ "scan_qr" ∷ "authenticate" ∷ "logout"
    ∷ "switch_tenant" ∷ "exit_tenant" ∷ "open_form" ∷ "scroll_to" ∷ []

abbrev pub supported_capabilities : List String
supported_capabilities =
    "analytics" ∷ "auth" ∷ "booking" ∷ "cart" ∷ "catalog" ∷ "checkout" ∷ "commerce" ∷ "forms"
    ∷ "localization" ∷ "media" ∷ "notifications" ∷ "orders" ∷ "payments" ∷ "profile" ∷ "qr"
    ∷ "search" ∷ []

abbrev pub max_screens : ℕ
max_screens = 200

abbrev pub max_nesting_depth : ℕ
max_nesting_depth = 25

abbrev pub max_components : ℕ
max_components = 2000

abbrev pub max_asset_references : ℕ
max_asset_references = 500

-- `SUPPORTED_….includes(…)`
unfoldable pub is_supported_component : String → Bool
is_supported_component t = includes supported_component_types t

unfoldable pub is_supported_action : String → Bool
is_supported_action t = includes supported_action_types t

unfoldable pub is_supported_capability : String → Bool
is_supported_capability c = includes supported_capabilities c
